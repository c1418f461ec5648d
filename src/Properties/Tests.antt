-- ===== src/Properties/Tests.antt =====
-- Pointers and merges of small documents, and the theorems applied to them.
use justpen_knowledgebase_mc.Base.{◌≡◌, refl, some, [], ◌∷◌, pos, ok, err, validation}
use justpen_knowledgebase_mc.Json.{Fields, int, obj, end, field, get, put, erase}
use justpen_knowledgebase_mc.Properties.Pointer.{
  append, replace_char, replace_pair, escape, unescape, is_escaped, split, decode_tokens,
  pointer_tokens, path_of,
}
use justpen_knowledgebase_mc.Properties.Decoding.{pointer_tokens-path_of}
use justpen_knowledgebase_mc.Properties.Merge.{
  visit, write_paths, object_paths, remove, merge, same_path, decode_removals, remove_all,
  validate_properties, merge_properties,
}
use justpen_knowledgebase_mc.Properties.Overlay.{
  IsUnique, at, misses, merge-spares, merge_properties-writes,
}

odd_path : path_of ("a/b" ∷ "~1" ∷ []) ≡ "/a~1b/~01"
unfolding path_of append escape replace_char
odd_path = refl

bad_escape : pointer_tokens "/a~2" ≡ err (validation "invalid pointer escape")
unfolding pointer_tokens split decode_tokens is_escaped
bad_escape = refl

pointer_tokens-path_of_example :
    pointer_tokens (path_of ("a/b" ∷ "~1" ∷ [])) ≡ ok ("a/b" ∷ "~1" ∷ [])
pointer_tokens-path_of_example = pointer_tokens-path_of "a/b" ("~1" ∷ [])

abbrev current : Fields
current = field "port" (int (pos 22)) (field "tls" (obj (field "cipher" (int (pos 1)) end)) end)

abbrev patch : Fields
patch = field "tls" (obj (field "version" (int (pos 3)) end)) end

abbrev merged : Fields
merged = field "tls" (obj (field "cipher" (int (pos 1)) (field "version" (int (pos 3)) end))) end

patch-IsUnique : IsUnique patch
unfolding IsUnique get
patch-IsUnique = (refl, (refl, tt, tt), tt)

merge_properties_run : merge_properties (λ fs. 100) current patch ("/port" ∷ []) ≡ ok merged
unfolding merge_properties validate_properties visit decode_removals pointer_tokens split
    decode_tokens is_escaped unescape replace_pair write_paths object_paths same_path remove_all
    remove merge get put erase
merge_properties_run = refl

merge-spares_example :
    at ("tls" ∷ "cipher" ∷ []) (obj (merge current patch))
    ≡ at ("tls" ∷ "cipher" ∷ []) (obj current)
unfolding misses get
merge-spares_example = merge-spares current patch patch-IsUnique ("tls" ∷ "cipher" ∷ []) refl

merge_properties-writes_example :
    (validate_properties (λ fs. 100) merged ≡ ok tt)
    × (validate_properties (λ fs. 100) current ≡ ok tt)
    × (validate_properties (λ fs. 100) patch ≡ ok tt)
    × (at ("tls" ∷ "version" ∷ []) (obj merged) ≡ some (int (pos 3)))
unfolding at get
merge_properties-writes_example =
    merge_properties-writes (λ fs. 100) current patch ("/port" ∷ []) merged ("tls" ∷ "version" ∷ [])
      (int (pos 3)) patch-IsUnique merge_properties_run refl refl
