-- ===== src/Text/Places.antt =====
-- About text.py: the line breaks of a text, and the place of a match.
use Prim.Native.Char.{Char, code}
use justpen_knowledgebase_mc.Base.{
  ℕ, suc, ◌+◌, String, ◌≡◌, refl, ap, ◌∙◌, Bool, true, false, ◌||◌, ◌&&◌, not, arith, ◌==◌,
  if◌then◌else◌, Bool-cases, inl, inr,
}
use justpen_knowledgebase_mc.Properties.Pointer.{append}
use justpen_knowledgebase_mc.Text.{
  is_cr, is_lf, line_advance, text_take, text_drop, drop_last, TextChunk, SourceRange, chunk_end,
  source_range,
}

-- How often a character of the code occurs.
unfoldable pub occurs : ℕ → String → ℕ
occurs n String.[] = 0
occurs n (String.◌∷◌ c s) = (if code c == n then 1 else 0) + occurs n s

-- How often a line feed directly follows a carriage return.
unfoldable pub crlfs : String → ℕ
crlfs String.[] = 0
crlfs (String.◌∷◌ c String.[]) = 0
crlfs (String.◌∷◌ c (String.◌∷◌ d s)) =
    (if code c == 13 && code d == 10 then 1 else 0) + crlfs (String.◌∷◌ d s)

-- The text after a carriage return, or by itself.
abbrev pub after_cr : Bool → String → String
after_cr true s = append "\r" s
after_cr false s = s

-- A carriage return ends the text, or the one before it if it is empty.
unfoldable pub ends_in_cr : Bool → String → Bool
ends_in_cr cr String.[] = cr
ends_in_cr cr (String.◌∷◌ c s) = ends_in_cr (code c == 13) s

crlfs-head : (c : Char) (s : String) → crlfs (String.◌∷◌ c s) ≡ crlfs (after_cr (code c == 13) s)
unfolding crlfs append
crlfs-head c String.[] = elim (Bool-cases (code c == 13)) [ inl e ↦ rw e refl | inr e ↦ rw e refl ]
crlfs-head c (String.◌∷◌ d s) = elim (Bool-cases (code c == 13)) [
  | inl e ↦ rw e refl
  | inr e ↦ rw e (omega arith)
]

crlfs-after :
    (cr : Bool) (c : Char) (s : String)
    → crlfs (after_cr cr (String.◌∷◌ c s))
      ≡ (if cr && code c == 10 then 1 else 0) + crlfs (String.◌∷◌ c s)
unfolding crlfs append
crlfs-after true c s = refl
crlfs-after false c s = omega arith

-- What a piece of text does to the line and to the flag: LF, CR and CRLF are one line break each, and
-- an LF is no further break where a CR stands before the piece. The flag says whether a CR ends it.
pub record Advances (s : String) (line : ℕ) (cr : Bool) (after : ℕ × Bool) : Type 0 where
  pub breaks : after.0 + crlfs (after_cr cr s) ≡ line + (occurs 13 s + occurs 10 s)
  pub ends : after.1 ≡ ends_in_cr cr s

-- `line_advance` adds to the line the number of carriage returns and of line feeds, less the number of
-- line feeds that directly follow a carriage return, the one before the text counted if the flag is
-- set; and the flag that it returns says whether the text ends in a carriage return, or what it said
-- where the text is empty.
pub line_advance-Advances :
    (s : String) (line : ℕ) (cr : Bool) → Advances s line cr (line_advance s line cr)
unfolding line_advance occurs ends_in_cr
line_advance-Advances String.[] line true = record {
  breaks = unfold crlfs append in omega arith;
  ends = refl;
}
line_advance-Advances String.[] line false = record {
  breaks = unfold crlfs append in omega arith;
  ends = refl;
}
line_advance-Advances (String.◌∷◌ c s) line cr =
    let next = if is_cr c || (is_lf c && not cr) then suc line else line in
    let a = line_advance-Advances s next (is_cr c) in
    record { breaks = ground (arith, a.breaks, crlfs-after cr c s, crlfs-head c s); ends = a.ends }

line_advance-append :
    (s t : String) (line : ℕ) (cr : Bool)
    → line_advance (append s t) line cr
      ≡ line_advance t (line_advance s line cr).0 (line_advance s line cr).1
unfolding line_advance append
line_advance-append String.[] t line cr = refl
line_advance-append (String.◌∷◌ c s) t line cr = line_advance-append s t _ (is_cr c)

-- The number of characters of a text.
unfoldable pub chars : String → ℕ
chars String.[] = 0
chars (String.◌∷◌ c s) = suc (chars s)

text_take-prefix :
    (s t : String) (n : ℕ) → text_take (chars s + n) (append s t) ≡ append s (text_take n t)
unfolding text_take append chars
text_take-prefix String.[] t n = ap (λ k. text_take k t) (omega arith)
text_take-prefix (String.◌∷◌ c s) t n =
    ap (λ k. text_take k (append (String.◌∷◌ c s) t)) next
    ∙ ap (String.◌∷◌ c) (text_take-prefix s t n)
  where
    next : suc (chars s) + n ≡ suc (chars s + n)
    next = omega arith

text_take-none : (s : String) → text_take 0 s ≡ String.[]
unfolding text_take
text_take-none String.[] = refl
text_take-none (String.◌∷◌ c s) = refl

append-none : (s : String) → append s String.[] ≡ s
unfolding append
append-none String.[] = refl
append-none (String.◌∷◌ c s) = ap (String.◌∷◌ c) (append-none s)

text_take-chars : (s t : String) → text_take (chars s) (append s t) ≡ s
text_take-chars s t =
    ap (λ k. text_take k (append s t)) (omega arith)
    ∙ text_take-prefix s t 0
    ∙ ap (append s) (text_take-none t)
    ∙ append-none s

text_drop-chars : (s t : String) → text_drop (chars s) (append s t) ≡ t
unfolding text_drop append chars
text_drop-chars String.[] t = refl
text_drop-chars (String.◌∷◌ c s) t = text_drop-chars s t

drop_last-append : (s : String) (c : Char) → drop_last (append s (String.◌∷◌ c String.[])) ≡ s
unfolding drop_last append
drop_last-append String.[] c = refl
drop_last-append (String.◌∷◌ d String.[]) c = refl
drop_last-append (String.◌∷◌ d (String.◌∷◌ e s)) c =
    ap (String.◌∷◌ d) (drop_last-append (String.◌∷◌ e s) c)

-- The place of a match whose text is `most` and a last character, after the text `before`: its bytes are
-- those of the match, and those of the rest end the chunk; its first line counts the breaks before the match, and its last line also those
-- of the match without its last character.
pub record Lies (bytes : String → String → ℕ) (c : TextChunk) (before most : String) (last : Char)
    (rest : String) (r : SourceRange) : Type 0 where
  pub first_byte : r.byte_start ≡ c.byte_start + bytes c.encoding before
  pub after_bytes :
      r.byte_end ≡ r.byte_start + bytes c.encoding (append most (String.◌∷◌ last String.[]))
  pub to_end : r.byte_end + bytes c.encoding rest ≡ chunk_end bytes c
  pub first_line :
      r.line_start + crlfs (after_cr c.previous_cr before)
      ≡ c.line_start + (occurs 13 before + occurs 10 before)
  pub last_line :
      r.line_end + crlfs (after_cr c.previous_cr (append before most))
      ≡ c.line_start + (occurs 13 (append before most) + occurs 10 (append before most))

-- For an encoding that encodes a text piece by piece, and a chunk whose text is a text, a match that is
-- not empty, and a rest, the source range of the positions of the match starts after the bytes of the
-- text before it, spans its bytes, and ends before the bytes of the rest in the chunk. Its first
-- line is that of the chunk and the line breaks before the match, its last line adds those of the match
-- without its last character; CRLF is one break, also where its CR ended the previous chunk.
pub source_range-Lies :
    (bytes : String → String → ℕ) (c : TextChunk) (before most rest : String) (last : Char)
    → ((s t : String) → bytes c.encoding (append s t) ≡ bytes c.encoding s + bytes c.encoding t)
    → c.text ≡ append before (append (append most (String.◌∷◌ last String.[])) rest)
    → Lies bytes c before most last rest (
        source_range bytes c
          (chars before)
          (chars before + chars (append most (String.◌∷◌ last String.[]))))
unfolding source_range
source_range-Lies bytes c before most rest last additive whole =
    let found = append most (String.◌∷◌ last String.[]) in
    let head : text_take (chars before) c.text ≡ before =
      ap (text_take (chars before)) whole ∙ text_take-chars before (append found rest) in
    let upto : text_take (chars before + chars found) c.text ≡ append before found =
      ap (text_take (chars before + chars found)) whole
      ∙ text_take-prefix before (append found rest) (chars found)
      ∙ ap (append before) (text_take-chars found rest) in
    let inner : text_drop (chars before) (text_take (chars before + chars found) c.text) ≡ found =
      ap (text_drop (chars before)) upto ∙ text_drop-chars before found in
    let joined = line_advance-append before most c.line_start c.previous_cr in
    record {
      first_byte = rw head refl;
      after_bytes = rw (inner, head) refl;
      to_end =
          rw (inner, head)
            (omega (
              arith,
              ap (bytes c.encoding) whole,
              additive before (append found rest),
              additive found rest,
            ));
      first_line = rw head (line_advance-Advances before c.line_start c.previous_cr).breaks;
      last_line =
          rw (inner, head, drop_last-append most last, ← joined)
            (line_advance-Advances (append before most) c.line_start c.previous_cr).breaks;
    }
