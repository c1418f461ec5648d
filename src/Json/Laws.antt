-- ===== src/Json/Laws.antt =====
-- What a lookup finds after each change of a dictionary.
use justpen_knowledgebase_mc.Base.{
  String, ◌≡◌, refl, none, some, arith, str_eq, eq_iff, if◌then◌else◌,
}
use justpen_knowledgebase_mc.Json.{Value, Fields, end, field, get, put, erase}

pub get-put :
    (k j : String) (v : Value) (fs : Fields)
    → get j (put k v fs) ≡ (if str_eq k j then some v else get j fs)
unfolding get put
get-put k j v end = refl
get-put k j v (field i w fs) = ground (arith, eq_iff k j, eq_iff i k, eq_iff i j, get-put k j v fs)

pub get-erase :
    (k j : String) (fs : Fields) → get j (erase k fs) ≡ (if str_eq k j then none else get j fs)
unfolding get erase
get-erase k j end = ground arith
get-erase k j (field i w fs) = ground (arith, eq_iff k j, eq_iff i k, eq_iff i j, get-erase k j fs)

pub ruleset fields_laws = (get-put, get-erase)
