-- ===== src/Text/Tests.antt =====
-- A text with a CRLF, and the theorems applied to it.
use justpen_knowledgebase_mc.Base.{
  ℕ, String, ◌≡◌, refl, true, false, err, indexing_error, [], ◌∷◌, suc, ◌+◌, arith,
}
use justpen_knowledgebase_mc.Properties.Pointer.{append}
use justpen_knowledgebase_mc.Text.{
  starts_with, starts_with_any, detect_mark, detect_encoding, line_advance, text_take, text_drop,
  drop_last, TextChunk, source_range,
}
use justpen_knowledgebase_mc.Text.Places.{
  Advances, Lies, chars, line_advance-Advances, source_range-Lies,
}

abbrev one_byte : String → String → ℕ
one_byte encoding String.[] = 0
one_byte encoding (String.◌∷◌ c s) = suc (one_byte encoding s)

one_byte-append : (e s t : String) → one_byte e (append s t) ≡ one_byte e s + one_byte e t
unfolding append
one_byte-append e String.[] t = omega arith
one_byte-append e (String.◌∷◌ c s) t = omega (arith, one_byte-append e s t)

crlf_once : line_advance "a\r\nb\rc\n" 1 false ≡ (4, false)
unfolding line_advance
crlf_once = refl

mark_conflict :
    detect_encoding (239 ∷ 187 ∷ 191 ∷ 65 ∷ []) "utf-16le"
    ≡ err (indexing_error "ENCODING_BOM_CONFLICT")
unfolding detect_encoding starts_with_any starts_with detect_mark
mark_conflict = refl

abbrev chunk : TextChunk
chunk = record {
  text = "one\r\ntwo\n";
  encoding = "latin-1";
  byte_start = 100;
  line_start = 7;
  owner_start = 0;
  previous_cr = false;
  gap = false;
}

range_run :
    source_range one_byte chunk 5 8
    ≡ record { byte_start = 105; byte_end = 108; line_start = 8; line_end = 8 }
unfolding source_range text_take text_drop drop_last line_advance
range_run = refl

-- The second half of a CRLF that a chunk boundary cuts.
line_advance-Advances_example : Advances "\nb\r\n" 2 true (3, false)
unfolding line_advance
line_advance-Advances_example = line_advance-Advances "\nb\r\n" 2 true

source_range-Lies_example :
    Lies one_byte chunk "one\r\n" "tw" "o" "\n" (source_range one_byte chunk 5 8)
unfolding append chars
source_range-Lies_example =
    source_range-Lies one_byte chunk "one\r\n" "tw" "\n" "o" (one_byte-append "latin-1") refl
