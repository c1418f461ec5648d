-- ===== src/Cursor/Tests.antt =====
-- A cursor of one position, and the theorem applied to it.
use Prim.Native.Char.{Char, code}
use justpen_knowledgebase_mc.Base.{
  ℕ, zero, suc, ◌+◌, ◌*◌, ◌/◌, ◌%◌, List, [], ◌∷◌, ◌++◌, ◌&&◌, ◌==◌, ltb, if◌then◌else◌, String,
  Bool, ap, ◌∙◌, arith, ◌≡◌, refl, true, false, none, some, Option, pos, ok,
}
use justpen_knowledgebase_mc.Json.{Value, Fields, end, field, int, str, null, obj}
use justpen_knowledgebase_mc.Properties.Pointer.{append}
use justpen_knowledgebase_mc.Cursor.{
  CursorBinding, text_length, pads, rstrip_pads, validate_kind, match_groups, is_graph_id,
  cursor_fields, encode, decode_position,
}
use justpen_knowledgebase_mc.Cursor.Pages.{all_cursor, IsBase64, decode_position-encode}

graph_id : is_graph_id "550e8400-e29b-41d4-a716-446655440000" ≡ true
unfolding match_groups
graph_id = refl

not_graph_id : is_graph_id "550E8400-e29b-41d4-a716-446655440000" ≡ false
unfolding match_groups
not_graph_id = refl

abbrev any_uuid : String → Bool
any_uuid s = true

abbrev no_query : Fields → String
no_query fs = "00"

abbrev binding : CursorBinding
binding = record {
  workspace_id = "w";
  query_epoch = pos 3;
  kind = "nodes";
  owner_id = none;
  view = "search";
  query = end;
}

-- The base64 of RFC 4648 over the URL-safe alphabet.
abbrev alphabet_text : String
alphabet_text = "ABCDEFGHIJKLMNOPQRSTUVWXYZabcdefghijklmnopqrstuvwxyz0123456789-_"

unfoldable digit_at : ℕ → String → String
digit_at n String.[] = "="
digit_at zero (String.◌∷◌ c s) = String.◌∷◌ c String.[]
digit_at (suc n) (String.◌∷◌ c s) = digit_at n s

abbrev digit : ℕ → String
digit n = digit_at (n % 64) alphabet_text

unfoldable b64encode : List ℕ → String
b64encode [] = ""
b64encode (x ∷ []) = append (digit (x / 4)) (append (digit (x * 16)) "==")
b64encode (x ∷ y ∷ []) =
    append (digit (x / 4)) (append (digit (x * 16 + y / 16)) (append (digit (y * 4)) "="))
b64encode (x ∷ y ∷ z ∷ bytes) =
    let rest = b64encode bytes in
    append (digit (x / 4))
      (append (digit (x * 16 + y / 16)) (append (digit (y * 4 + z / 64)) (append (digit z) rest)))

-- The position of a character in the alphabet.
unfoldable place_of : Char → ℕ → String → ℕ
place_of c n String.[] = 64
place_of c n (String.◌∷◌ d s) =
    let rest = place_of c (suc n) s in if code c == code d then n else rest

abbrev value_of : Char → ℕ
value_of c = place_of c 0 alphabet_text

-- The bytes of a group of four, by its pads.
unfoldable group_bytes : ℕ → ℕ → ℕ → ℕ → List ℕ
group_bytes a b c d =
    if c == 64
    then ((a * 4 + b / 16) % 256) ∷ []
    else if d == 64
    then ((a * 4 + b / 16) % 256) ∷ ((b * 16 + c / 4) % 256) ∷ []
    else ((a * 4 + b / 16) % 256) ∷ ((b * 16 + c / 4) % 256) ∷ ((c * 64 + d) % 256) ∷ []

unfoldable b64decode : String → Option (List ℕ)
b64decode String.[] = some []
b64decode (String.◌∷◌ a (String.◌∷◌ b (String.◌∷◌ c (String.◌∷◌ d s)))) = elim (b64decode s) [
  | none ↦ none
  | some rest ↦ some (group_bytes (value_of a) (value_of b) (value_of c) (value_of d) ++ rest)
]
b64decode (String.◌∷◌ _ _) = none

-- The JSON text of an object of short integers and plain texts.
unfoldable bytes_of : String → List ℕ
bytes_of String.[] = []
bytes_of (String.◌∷◌ c s) = code c ∷ bytes_of s

abbrev quoted : String → List ℕ
quoted s = 34 ∷ bytes_of s ++ 34 ∷ []

abbrev scalar : Value → List ℕ
scalar (str s) = quoted s
scalar (int (pos n)) = (if ltb n 10 then (48 + n) ∷ [] else (48 + n / 10) ∷ (48 + n % 10) ∷ [])
scalar _ = bytes_of "null"

unfoldable members : Fields → List ℕ
members end = 125 ∷ []
members (field k v end) = quoted k ++ 58 ∷ scalar v ++ 125 ∷ []
members (field k v (field j w fs)) =
    let rest = members (field j w fs) in quoted k ++ 58 ∷ scalar v ++ 44 ∷ rest

abbrev dumps : Fields → List ℕ
dumps fs = 123 ∷ members fs

abbrev position : Fields
position = cursor_fields no_query binding (pos 41) none

unfoldable same_bytes : List ℕ → List ℕ → Bool
same_bytes [] [] = true
same_bytes (x ∷ xs) (y ∷ ys) = x == y && same_bytes xs ys
same_bytes _ _ = false

-- The object of the bytes of this position, and no other.
abbrev loads : List ℕ → Option Value
loads bytes = if same_bytes bytes (dumps position) then some (obj position) else none

abbrev body : String
body =
    "yJhZnRlcl9pZCI6NDEsImFmdGVyX2tpbmQiOm51bGwsImtpbmQiOiJub2RlcyIsIm93bmVyX2lkIjpudWxsLCJxdWVyeV9lcG9jaCI6MywicXVlcnlfZmluZ2VycHJpbnQiOiIwMCIsInZlcnNpb24iOjEsInZpZXciOiJzZWFyY2giLCJ3b3Jrc3BhY2VfaWQiOiJ3In0"

abbrev packed : String
packed = append "e" (append body "=")

packs : b64encode (dumps position) ≡ packed
unfolding b64encode digit_at members bytes_of append
packs = refl

unpacks : b64decode packed ≡ some (dumps position)
unfolding b64decode group_bytes place_of members bytes_of append
unpacks = refl

packed-IsBase64 : IsBase64 (b64encode (dumps position))
unfolding append pads all_cursor text_length
packed-IsBase64 = record {
  first = "e";
  others = body;
  pad_count = 1;
  whole = packs;
  starts = refl;
  alphabet = refl;
  few = omega arith;
  groups = refl;
}

loaded : loads (dumps position) ≡ some (obj position)
unfolding same_bytes members bytes_of
loaded = refl

encode_run : encode no_query dumps b64encode binding (pos 41) none ≡ ok (append "e" body)
unfolding encode validate_kind text_length rstrip_pads b64encode digit_at members bytes_of append
encode_run = refl

decode_position-encode_example :
    decode_position any_uuid no_query b64decode loads binding (append "e" body)
    ≡ ok (some (int (pos 41)), some null)
decode_position-encode_example =
    decode_position-encode any_uuid no_query dumps b64encode binding b64decode loads (pos 41) none
      (append "e" body) refl refl refl packed-IsBase64 (ap b64decode packs ∙ unpacks) loaded
      encode_run
