-- ===== src/Cursor.antt =====
-- cursors.py: the position of a page as an opaque text. Parameters: `fingerprint` is the SHA-256 of the
-- canonical JSON of a query, in hex; `dumps` is `json.dumps` under the options of `canonical_json`, in
-- UTF-8, and `loads` is `json.loads`, with the keys of an object as its hook gets them; `b64encode` and
-- `b64decode` are those of `base64` over the URL-safe alphabet; `is_uuid` is what `UUID` accepts. The
-- ids are those of identity.py.
pub mod Pages
mod Tests
use Prim.Native.Char.{Char, code}
use justpen_knowledgebase_mc.Base.{
  ℕ, zero, suc, ◌+◌, ◌-◌, ◌%◌, ◌^◌, String, Bool, true, false, ◌||◌, ◌&&◌, not, Option, none, some,
  List, [], ◌∷◌, ℤ, pos, negsuc, Result, ok, err, value_error, raise_if, or_raise, ◌>>=◌, ◌>>◌, ltb,
  leb, ◌==◌, str_eq, any, if◌then◌else◌, is_some,
}
use justpen_knowledgebase_mc.Jobs.Ownership.{is_hex}
use justpen_knowledgebase_mc.Json.{
  Value, Fields, Items, null, int, str, obj, arr, nil, cons, end, field, get, has,
}
use justpen_knowledgebase_mc.Properties.Pointer.{append}

pub record CursorBinding : Type 0 where
  pub workspace_id : String
  pub query_epoch : ℤ
  pub kind : String
  pub owner_id : Option String
  pub view : String
  pub query : Fields

abbrev pub opt_str : Option String → Value
opt_str none = null
opt_str (some s) = str s

abbrev pub within : ℕ → ℕ → ℕ → Bool
within low high n = leb low n && leb n high

-- `[A-Za-z0-9_-]`
abbrev pub is_cursor_char : Char → Bool
is_cursor_char c =
    within 65 90 (code c)
    || (within 97 122 (code c) || (within 48 57 (code c) || (code c == 95 || code c == 45)))

abbrev pub is_pad : Char → Bool
is_pad c = code c == 61

-- `={0,2}`
abbrev pub is_padding : String → Bool
is_padding String.[] = true
is_padding (String.◌∷◌ c String.[]) = is_pad c
is_padding (String.◌∷◌ c (String.◌∷◌ d String.[])) = is_pad c && is_pad d
is_padding (String.◌∷◌ c (String.◌∷◌ d (String.◌∷◌ e s))) = false

-- `[A-Za-z0-9_-]*={0,2}`
unfoldable pub is_cursor_rest : String → Bool
is_cursor_rest String.[] = true
is_cursor_rest (String.◌∷◌ c s) =
    let rest = is_cursor_rest s in if is_cursor_char c then rest else is_padding (String.◌∷◌ c s)

unfoldable pub is_cursor_text : String → Bool
is_cursor_text String.[] = false
is_cursor_text (String.◌∷◌ c s) = is_cursor_char c && is_cursor_rest s

unfoldable pub text_length : String → ℕ
text_length String.[] = 0
text_length (String.◌∷◌ c s) = suc (text_length s)

-- `"=" * n`
unfoldable pub pads : ℕ → String
pads zero = String.[]
pads (suc n) = append "=" (pads n)

abbrev pub is_empty_text : String → Bool
is_empty_text String.[] = true
is_empty_text (String.◌∷◌ c s) = false

-- `text.rstrip("=")`
unfoldable pub rstrip_pads : String → String
rstrip_pads String.[] = String.[]
rstrip_pads (String.◌∷◌ c s) =
    let rest = rstrip_pads s in
    if is_pad c && is_empty_text rest then String.[] else String.◌∷◌ c rest

-- `cursor + "=" * (-len(cursor) % 4)`
unfoldable pub padded : String → String
padded cursor = append cursor (pads ((4 - text_length cursor % 4) % 4))

-- `_unique_object`, on every object of the payload
unfoldable mutual
  pub is_unique_value : Value → Bool
  is_unique_value (obj fs) = is_unique_object fs
  is_unique_value (arr vs) = is_unique_items vs
  is_unique_value _ = true

  pub is_unique_object : Fields → Bool
  is_unique_object end = true
  is_unique_object (field k v fs) = not (has k fs) && (is_unique_value v && is_unique_object fs)

  pub is_unique_items : Items → Bool
  is_unique_items nil = true
  is_unique_items (cons v vs) = is_unique_value v && is_unique_items vs

-- `type(v) is int and 0 <= v < 2**63`
abbrev pub is_position : Option Value → Bool
is_position (some (int (pos n))) = ltb n (2 ^ 63)
is_position _ = false

abbrev pub is_text : Option Value → Bool
is_text (some (str s)) = true
is_text _ = false

abbrev pub is_equal_text : Option Value → String → Bool
is_equal_text (some (str s)) t = str_eq s t
is_equal_text _ t = false

abbrev pub is_equal_owner : Option Value → Option String → Bool
is_equal_owner (some null) none = true
is_equal_owner (some (str s)) (some t) = str_eq s t
is_equal_owner _ _ = false

abbrev pub is_equal_int : Option Value → ℤ → Bool
is_equal_int (some (int (pos n))) (pos m) = n == m
is_equal_int (some (int (negsuc n))) (negsuc m) = n == m
is_equal_int _ _ = false

-- `_validate_kind`
abbrev pub is_link_kind : Option Value → Bool
is_link_kind (some (str s)) = str_eq s "nodes" || str_eq s "relations"
is_link_kind _ = false

abbrev pub is_given : Option Value → Bool
is_given none = false
is_given (some null) = false
is_given (some _) = true

unfoldable pub validate_kind : CursorBinding → Option Value → Result (Unit {0})
validate_kind b after_kind =
    if str_eq b.kind "evidence" && str_eq b.view "links"
    then raise_if (not (is_link_kind after_kind))
        (value_error "evidence links require association kind")
    else raise_if (is_given after_kind) (value_error "association kind is not valid for this view")

-- The decoded object has the nine keys and no other; its keys are unique.
unfoldable pub key_count : Fields → ℕ
key_count end = 0
key_count (field k v fs) = suc (key_count fs)

unfoldable pub has_all : List String → Fields → Bool
has_all [] fs = true
has_all (k ∷ ks) fs = has k fs && has_all ks fs

abbrev pub cursor_keys : List String
cursor_keys =
    "version" ∷ "workspace_id" ∷ "query_epoch" ∷ "kind" ∷ "owner_id" ∷ "view" ∷ "query_fingerprint"
    ∷ "after_id" ∷ "after_kind" ∷ []

abbrev pub as_obj : Value → Option Fields
as_obj (obj fs) = some fs
as_obj _ = none

-- The payload of a cursor, if the `try` of `decode_position` does not raise.
unfoldable pub checked_payload : Option Value → Option Value
checked_payload none = none
checked_payload (some v) = if is_unique_value v then some v else none

unfoldable pub load_payload : (List ℕ → Option Value) → Option (List ℕ) → Option Value
load_payload loads none = none
load_payload loads (some bytes) = checked_payload (loads bytes)

module _ (fingerprint : Fields → String) where
  -- `{**self._fields(), "after_id": …, "after_kind": …}`, with its keys in the order of canonical JSON
  abbrev pub cursor_fields : CursorBinding → ℤ → Option String → Fields
  cursor_fields b after_id after_kind = field "after_id" (int after_id) (
      field "after_kind" (opt_str after_kind) (
        field "kind" (str b.kind) (
          field "owner_id" (opt_str b.owner_id) (
            field "query_epoch" (int b.query_epoch) (
              field "query_fingerprint" (str (fingerprint b.query)) (
                field "version" (int (pos 1))
                  (field "view" (str b.view) (field "workspace_id" (str b.workspace_id) end))))))))

  unfoldable pub encode :
      (Fields → List ℕ) → (List ℕ → String) → CursorBinding → ℤ → Option String → Result String
  encode dumps b64encode b after_id after_kind = do
    raise_if (not (is_position (some (int after_id)))) (value_error "invalid cursor position")
    validate_kind b (some (opt_str after_kind))
    let encoded = rstrip_pads (b64encode (dumps (cursor_fields b after_id after_kind)))
    raise_if (ltb 4096 (text_length encoded)) (value_error "cursor exceeds byte budget")
    ok encoded

  -- The keys of the binding that differ from those of the cursor.
  abbrev pub is_bound : CursorBinding → Fields → Bool
  is_bound b found =
      is_equal_int (get "version" found) (pos 1)
      && (is_equal_text (get "workspace_id" found) b.workspace_id
          && (is_equal_int (get "query_epoch" found) b.query_epoch
              && (is_equal_text (get "kind" found) b.kind
                  && (is_equal_owner (get "owner_id" found) b.owner_id
                      && (is_equal_text (get "view" found) b.view
                          && is_equal_text (get "query_fingerprint" found)
                              (fingerprint b.query))))))

abbrev pub is_integers : Fields → Bool
is_integers found =
    is_position (get "version" found)
    && (is_position (get "query_epoch" found) && is_position (get "after_id" found))

abbrev pub is_strings : Fields → Bool
is_strings found =
    is_text (get "kind" found)
    && (is_text (get "view" found) && is_text (get "query_fingerprint" found))

-- `fullmatch` of groups of hex digits between dashes: the digits that are left of a group, and the
-- lengths of the groups after it
unfoldable pub match_groups : ℕ → List ℕ → String → Bool
match_groups zero [] String.[] = true
match_groups zero [] (String.◌∷◌ c s) = false
match_groups zero (m ∷ ms) String.[] = false
match_groups zero (m ∷ ms) (String.◌∷◌ c s) = code c == 45 && match_groups m ms s
match_groups (suc n) ms String.[] = false
match_groups (suc n) ms (String.◌∷◌ c s) = is_hex c && match_groups n ms s

-- `_CANONICAL_UUID` and `_CANONICAL_EVIDENCE`
abbrev pub is_graph_id : String → Bool
is_graph_id s = match_groups 8 (4 ∷ 4 ∷ 4 ∷ 12 ∷ []) s

abbrev pub is_evidence_id : String → Bool
is_evidence_id (String.◌∷◌ c (String.◌∷◌ d s)) =
    code c == 101 && (code d == 95 && match_groups 64 [] s)
is_evidence_id _ = false

-- `validate_record_id`
unfoldable pub is_record_id : Option Value → String → Bool
is_record_id kind s = if is_equal_text kind "evidence" then is_evidence_id s else is_graph_id s

module _ (is_uuid : String → Bool) where
  abbrev pub is_workspace : Option Value → Bool
  is_workspace (some (str s)) = is_uuid s
  is_workspace _ = false

  abbrev pub is_owner : Option Value → Option Value → Bool
  is_owner kind (some null) = true
  is_owner kind (some (str s)) = is_record_id kind s
  is_owner kind _ = false

  -- `_validate_owners`, whose errors are all a ValueError
  abbrev pub validate_owners : Fields → Result (Unit {0})
  validate_owners found =
      raise_if
        (not (
          is_workspace (get "workspace_id" found)
          && is_owner (get "kind" found) (get "owner_id" found)))
        (value_error "invalid cursor owner")

  module _ (fingerprint : Fields → String) where
    -- The checks of `decode_position` on the decoded object.
    unfoldable pub decode_fields : CursorBinding → Fields → Result (Option Value × Option Value)
    decode_fields b found = do
      raise_if (not (key_count found == 9 && has_all cursor_keys found))
          (value_error "invalid cursor fields")
      raise_if (not (is_integers found)) (value_error "invalid cursor integer")
      validate_owners found
      raise_if (not (is_strings found)) (value_error "invalid cursor string")
      raise_if (not (is_bound fingerprint b found)) (value_error "cursor binding mismatch")
      validate_kind b (get "after_kind" found)
      ok (get "after_id" found, get "after_kind" found)

    unfoldable pub decode_position :
        (String → Option (List ℕ))
        → (List ℕ → Option Value)
        → CursorBinding
        → String
        → Result (Option Value × Option Value)
    decode_position b64decode loads b cursor = do
      raise_if (ltb 4096 (text_length cursor) || not (is_cursor_text cursor))
          (value_error "invalid cursor encoding")
      value ←
          or_raise (load_payload loads (b64decode (padded cursor)))
            (value_error "invalid cursor payload")
      found ← or_raise (as_obj value) (value_error "cursor object required")
      decode_fields b found
