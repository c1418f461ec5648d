-- ===== src/Text.antt =====
-- text.py: the encoding that a byte order mark names, source lines, and the place of a match in a chunk.
-- `bytes` is the length of a text under an encoding, which `str.encode` gives.
pub mod Places
mod Tests
use Prim.Native.Char.{Char, code}
use justpen_knowledgebase_mc.Base.{
  ℕ, zero, suc, ◌+◌, ◌-◌, String, Bool, true, false, ◌||◌, ◌&&◌, not, List, [], ◌∷◌, Result, ok,
  err, indexing_error, ◌==◌, str_eq, if◌then◌else◌, length,
}
use justpen_knowledgebase_mc.Properties.Pointer.{append}

-- `value.startswith(prefix)`
unfoldable pub starts_with : List ℕ → List ℕ → Bool
starts_with [] bytes = true
starts_with (b ∷ bs) [] = false
starts_with (b ∷ bs) (x ∷ xs) = b == x && starts_with bs xs

-- The marks of `codecs`
abbrev pub utf32_marks : List (List ℕ)
utf32_marks = (255 ∷ 254 ∷ 0 ∷ 0 ∷ []) ∷ (0 ∷ 0 ∷ 254 ∷ 255 ∷ []) ∷ []

abbrev pub marks : List (List ℕ × String)
marks =
    (239 ∷ 187 ∷ 191 ∷ [], "utf-8")
    ∷ (255 ∷ 254 ∷ [], "utf-16le")
    ∷ (254 ∷ 255 ∷ [], "utf-16be")
    ∷ []

unfoldable pub starts_with_any : List (List ℕ) → List ℕ → Bool
starts_with_any [] bytes = false
starts_with_any (m ∷ ms) bytes = starts_with m bytes || starts_with_any ms bytes

-- The loop of `detect_encoding`
unfoldable pub detect_mark : List (List ℕ × String) → List ℕ → String → Result (String × ℕ)
detect_mark [] prefix encoding = ok ((if str_eq encoding "auto" then "utf-8" else encoding), 0)
detect_mark ((mark, found) ∷ rest) prefix encoding =
    let next = detect_mark rest prefix encoding in
    if starts_with mark prefix
    then (if not (str_eq encoding "auto" || str_eq encoding found)
        then err (indexing_error "ENCODING_BOM_CONFLICT")
        else ok (found, length mark))
    else next

unfoldable pub detect_encoding : List ℕ → String → Result (String × ℕ)
detect_encoding prefix encoding =
    if starts_with_any utf32_marks prefix
    then err (indexing_error "UNSUPPORTED_ENCODING")
    else detect_mark marks prefix encoding

abbrev pub is_cr : Char → Bool
is_cr c = code c == 13

abbrev pub is_lf : Char → Bool
is_lf c = code c == 10

-- `line_advance`, with the line and the flag that it returns
unfoldable pub line_advance : String → ℕ → Bool → ℕ × Bool
line_advance String.[] line previous_cr = (line, previous_cr)
line_advance (String.◌∷◌ c s) line previous_cr =
    line_advance s (if is_cr c || (is_lf c && not previous_cr) then suc line else line) (is_cr c)

-- `value[:n]`, `value[n:]` and `value[:-1]`
unfoldable pub text_take : ℕ → String → String
text_take zero s = String.[]
text_take (suc n) String.[] = String.[]
text_take (suc n) (String.◌∷◌ c s) = String.◌∷◌ c (text_take n s)

unfoldable pub text_drop : ℕ → String → String
text_drop zero s = s
text_drop (suc n) String.[] = String.[]
text_drop (suc n) (String.◌∷◌ c s) = text_drop n s

unfoldable pub drop_last : String → String
drop_last String.[] = String.[]
drop_last (String.◌∷◌ c String.[]) = String.[]
drop_last (String.◌∷◌ c (String.◌∷◌ d s)) = String.◌∷◌ c (drop_last (String.◌∷◌ d s))

pub record TextChunk : Type 0 where
  pub text : String
  pub encoding : String
  pub byte_start : ℕ
  pub line_start : ℕ
  pub owner_start : ℕ
  pub previous_cr : Bool
  pub gap : Bool

-- What `source_range` returns
pub record SourceRange : Type 0 where
  pub byte_start : ℕ
  pub byte_end : ℕ
  pub line_start : ℕ
  pub line_end : ℕ

module _ (bytes : String → String → ℕ) where
  -- `byte_end` of a chunk
  abbrev pub chunk_end : TextChunk → ℕ
  chunk_end c = c.byte_start + bytes c.encoding c.text

  unfoldable pub source_range : TextChunk → ℕ → ℕ → SourceRange
  source_range c start stop =
      let before = text_take start c.text in
      let found = text_drop start (text_take stop c.text) in
      let (first, cr) = line_advance before c.line_start c.previous_cr in
      let (last, _) = line_advance (drop_last found) first cr in
      let byte_start = c.byte_start + bytes c.encoding before in
      record {
        byte_start = byte_start;
        byte_end = byte_start + bytes c.encoding found;
        line_start = first;
        line_end = last;
      }
