-- ===== src/Json.antt =====
-- JSON documents as the Python code holds them: `json.loads` gives objects whose keys are unique and
-- keep their order. A float is its 64-bit pattern. `get`, `put` and `erase` are `d.get(k)`,
-- `d[k] = v` and `d.pop(k, None)`.
pub mod Laws
use justpen_knowledgebase_mc.Base.{
  ℕ, ◌/◌, ◌%◌, ◌^◌, ◌==◌, ◌&&◌, not, String, Bool, true, false, Option, none, some, ℤ, str_eq,
  if◌then◌else◌,
}

mutual
  pub data Value : Type 0 where
    null : Value
    boolean : Bool → Value
    int : ℤ → Value
    float : ℕ → Value
    str : String → Value
    obj : Fields → Value
    arr : Items → Value

  pub data Fields : Type 0 where
    end : Fields
    field : String → Value → Fields → Fields

  pub data Items : Type 0 where
    nil : Items
    cons : Value → Items → Items

-- The 11 bits of the exponent are not all set: neither an infinity nor NaN.
abbrev pub is_finite_float : ℕ → Bool
is_finite_float bits = not (bits / 2 ^ 52 % 2 ^ 11 == 2047)

-- No float in the document is an infinity or NaN.
unfoldable mutual
  pub is_strict_value : Value → Bool
  is_strict_value (float bits) = is_finite_float bits
  is_strict_value (obj fs) = is_strict fs
  is_strict_value (arr vs) = is_strict_items vs
  is_strict_value _ = true

  pub is_strict : Fields → Bool
  is_strict end = true
  is_strict (field k v fs) = is_strict_value v && is_strict fs

  pub is_strict_items : Items → Bool
  is_strict_items nil = true
  is_strict_items (cons v vs) = is_strict_value v && is_strict_items vs

-- `d.get(k)`
unfoldable pub get : String → Fields → Option Value
get k end = none
get k (field j v fs) = if str_eq j k then some v else get k fs

-- `k in d`
abbrev pub has : String → Fields → Bool
has k fs = elim (get k fs) [ none ↦ false | some _ ↦ true ]

-- `d[k] = v`: in place for a known key, at the end for a new one.
unfoldable pub put : String → Value → Fields → Fields
put k v end = field k v end
put k v (field j w fs) = if str_eq j k then field j v fs else field j w (put k v fs)

-- `d.pop(k, None)`
unfoldable pub erase : String → Fields → Fields
erase k end = end
erase k (field j v fs) = if str_eq j k then erase k fs else field j v (erase k fs)

-- `value.get(k)` of a key whose absence and whose null the caller treats alike.
abbrev pub present : Option Value → Option Value
present none = none
present (some null) = none
present (some v) = some v

-- `isinstance(v, str)`
abbrev pub as_string : Value → Option String
as_string (str s) = some s
as_string _ = none
