-- ===== src/Properties/Merge.antt =====
-- mutations.py: the validation of a property document, and the merge of a patch and of removals into
-- it. `size` is the length of the UTF-8 of `canonical_json`, which `json.dumps` writes.
use justpen_knowledgebase_mc.Base.{
  ℕ, ◌+◌, ◌/◌, ◌%◌, ◌^◌, String, Bool, true, false, ◌||◌, not, Option, none, some, List, [], ◌∷◌,
  ◌++◌, ℤ, pos, negsuc, Result, ok, err, validation, raise_if, ◌>>=◌, ◌>>◌, ltb, ◌==◌, str_eq, any,
  length, take, ◌&&◌,
}
use justpen_knowledgebase_mc.Json.{
  Value, Items, Fields, int, float, arr, obj, nil, cons, end, field, get, put, erase,
}
use justpen_knowledgebase_mc.Properties.Pointer.{pointer_tokens}

-- `-(2**63) <= item < 2**63`
abbrev pub is_signed64 : ℤ → Bool
is_signed64 (pos n) = ltb n (2 ^ 63)
is_signed64 (negsuc n) = ltb n (2 ^ 63)

-- `math.isfinite` of a 64-bit pattern
abbrev pub is_finite : ℕ → Bool
is_finite bits = not ((bits / 2 ^ 52) % 2 ^ 11 == 2047)

abbrev pub check_depth : ℕ → Result (Unit {0})
check_depth depth = raise_if (ltb 16 depth) (validation "properties depth exceeds 16")

unfoldable mutual
  -- `_visit`
  pub visit : ℕ → Value → Result (Unit {0})
  visit depth (int n) = do
    check_depth depth
    raise_if (not (is_signed64 n)) (validation "integer outside signed64")
  visit depth (float bits) = do
    check_depth depth
    raise_if (not (is_finite bits)) (validation "number must be finite")
  visit depth (arr items) = do check_depth depth; visit_items depth items
  visit depth (obj fields) = do check_depth depth; visit_object depth fields
  visit depth _ = check_depth depth

  pub visit_items : ℕ → Items → Result (Unit {0})
  visit_items depth nil = ok tt
  visit_items depth (cons item rest) = do visit (depth + 1) item; visit_items depth rest

  -- `_visit_object`, whose keys are strings
  pub visit_object : ℕ → Fields → Result (Unit {0})
  visit_object depth end = ok tt
  visit_object depth (field key child rest) = do visit (depth + 1) child; visit_object depth rest

unfoldable mutual
  -- `_write_paths`
  pub write_paths : Fields → Fields → List String → List (List String)
  write_paths old end prefix = []
  write_paths old (field key value rest) prefix =
      write_value (get key old) value (prefix ++ key ∷ []) ++ write_paths old rest prefix

  -- One round of its loop, from `old.get(key)`.
  pub write_value : Option Value → Value → List String → List (List String)
  write_value (some (obj o)) (obj new) path = write_paths o new path
  write_value none (obj new) path = write_paths end new path
  write_value _ value path = path ∷ []

unfoldable mutual
  -- `_object_paths`
  pub object_paths : Fields → List String → List (List String)
  object_paths end prefix = []
  object_paths (field key child rest) prefix =
      child_paths child (prefix ++ key ∷ []) ++ object_paths rest prefix

  pub child_paths : Value → List String → List (List String)
  child_paths (obj fields) path = path ∷ object_paths fields path
  child_paths _ path = []

-- `_remove`. A pointer has at least one token.
unfoldable pub remove : List String → Value → Result Value
remove [] target = ok target
remove (token ∷ rest) (arr items) = err (validation "array element removal is unsupported")
remove (token ∷ []) (obj fields) = ok (obj (erase token fields))
remove (token ∷ next ∷ rest) (obj fields) = elim (get token fields) [
  | none ↦ ok (obj fields)
  | some child ↦ do child' ← remove (next ∷ rest) child; ok (obj (put token child' fields))
]
remove (token ∷ rest) target = ok target

unfoldable mutual
  -- `_merge`
  pub merge : Fields → Fields → Fields
  merge old end = old
  merge old (field key value rest) = merge (put key (merge_value (get key old) value) old) rest

  -- What one round of its loop stores, from `old.get(key)`.
  pub merge_value : Option Value → Value → Value
  merge_value (some (obj o)) (obj new) = obj (merge o new)
  merge_value _ value = value

-- `xs == ys`
unfoldable pub same_path : List String → List String → Bool
same_path [] [] = true
same_path (x ∷ xs) (y ∷ ys) = str_eq x y && same_path xs ys
same_path _ _ = false

-- The two tests of a removal against the patch.
abbrev pub is_conflict : List (List String) → List (List String) → List String → Bool
is_conflict writes objects removal =
    any (λ path. same_path (take (length removal) path) removal) objects
    || any (λ write. same_path (take (length write) removal) (take (length removal) write)) writes

unfoldable pub decode_removals : List String → Result (List (List String))
decode_removals [] = ok []
decode_removals (pointer ∷ pointers) = do
  tokens ← pointer_tokens pointer
  rest ← decode_removals pointers
  ok (tokens ∷ rest)

unfoldable pub remove_all : List (List String) → Value → Result Value
remove_all [] target = ok target
remove_all (removal ∷ removals) target = do
  target' ← remove removal target
  remove_all removals target'

-- The document that the removals leave is an object, as it was.
abbrev pub fields_of : Value → Fields
fields_of (obj fields) = fields
fields_of _ = end

module _ (size : Fields → ℕ) where
  unfoldable pub validate_properties : Fields → Result (Unit {0})
  validate_properties fields = do
    visit 0 (obj fields)
    raise_if (ltb 65536 (size fields)) (validation "properties exceed 65536 bytes")

  unfoldable pub merge_properties : Fields → Fields → List String → Result Fields
  merge_properties current patch pointers = do
    validate_properties current
    validate_properties patch
    removals ← decode_removals pointers
    raise_if (any (is_conflict (write_paths current patch []) (object_paths patch [])) removals)
        (validation "remove and set paths conflict")
    kept ← remove_all removals (obj current)
    let result = merge (fields_of kept) patch
    validate_properties result
    ok result
