-- ===== src/Properties/Decoding.antt =====
-- Pointers of mutations.py against the paths that indexing.py writes.
use Prim.Native.Char.{Char}
use text.Mathlib.TextEquality.{codes_equal}
use justpen_knowledgebase_mc.Base.{
  String, ◌≡◌, refl, ap, Bool, true, false, List, [], ◌∷◌, arith, ok, Bool-cases, inl, inr,
}
use justpen_knowledgebase_mc.Properties.Pointer.{
  is_tilde, is_slash, is_zero, is_one, append, replace_char, replace_pair, escape, unescape,
  is_escaped, before_first, split, decode_tokens, pointer_tokens, path_of,
}

tilde_is : (c : Char) → is_tilde c ≡ true → "~" ≡ c
tilde_is c h = codes_equal "~" c (ground arith)

slash_is : (c : Char) → is_slash c ≡ true → "/" ≡ c
slash_is c h = codes_equal "/" c (ground arith)

module _ (is : Char → Bool) (d c : Char) (s : String) where
  replace_char-hit :
      is c ≡ true
      → replace_char is d (String.◌∷◌ c s) ≡ String.◌∷◌ "~" (String.◌∷◌ d (replace_char is d s))
  unfolding replace_char
  replace_char-hit h = rw h refl

  replace_char-miss :
      is c ≡ false → replace_char is d (String.◌∷◌ c s) ≡ String.◌∷◌ c (replace_char is d s)
  unfolding replace_char
  replace_char-miss h = rw h refl

  replace_pair-hit :
      is c ≡ true
      → replace_pair is d (String.◌∷◌ "~" (String.◌∷◌ c s)) ≡ String.◌∷◌ d (replace_pair is d s)
  unfolding replace_pair
  replace_pair-hit h = rw h refl

  replace_pair-tilde :
      is c ≡ false
      → replace_pair is d (String.◌∷◌ "~" (String.◌∷◌ c s))
        ≡ String.◌∷◌ "~" (replace_pair is d (String.◌∷◌ c s))
  unfolding replace_pair
  replace_pair-tilde h = rw h refl

replace_pair-other :
    (is : Char → Bool) (t c : Char) (s : String)
    → is_tilde c ≡ false
    → replace_pair is t (String.◌∷◌ c s) ≡ String.◌∷◌ c (replace_pair is t s)
unfolding replace_pair
replace_pair-other is t c String.[] h = refl
replace_pair-other is t c (String.◌∷◌ d s) h = rw h refl

-- A key whose tildes are escaped, and one whose slashes are escaped as well.
abbrev tildes : String → String
tildes s = replace_char is_tilde "0" s

abbrev slashes : String → String
slashes s = replace_char is_slash "1" s

-- What the two passes make of the first character.
tildes-tilde :
    (c : Char) (s : String)
    → is_tilde c ≡ true
    → tildes (String.◌∷◌ c s) ≡ String.◌∷◌ "~" (String.◌∷◌ "0" (tildes s))
tildes-tilde c s h = replace_char-hit is_tilde "0" c s h

slashes-tilde :
    (s : String)
    → slashes (String.◌∷◌ "~" (String.◌∷◌ "0" s)) ≡ String.◌∷◌ "~" (String.◌∷◌ "0" (slashes s))
slashes-tilde s =
    rw
      (
        replace_char-miss is_slash "1" "~" (String.◌∷◌ "0" s) refl,
        replace_char-miss is_slash "1" "0" s refl,
      )
      refl

replace_pair-tildes : (s : String) → replace_pair is_zero "~" (tildes s) ≡ s
replace_pair-tildes String.[] = unfold replace_char replace_pair in refl
replace_pair-tildes (String.◌∷◌ c s) = elim (Bool-cases (is_tilde c)) [
  | inl e ↦
      rw
        (
          replace_char-hit is_tilde "0" c s e,
          replace_pair-hit is_zero "~" "0" (tildes s) refl,
          replace_pair-tildes s,
        )
        (ap (λ x. String.◌∷◌ x s) (tilde_is c e))
  | inr e ↦
      rw
        (
          replace_char-miss is_tilde "0" c s e,
          replace_pair-other is_zero "~" c (tildes s) e,
          replace_pair-tildes s,
        )
        refl
]

replace_pair-slashes : (s : String) → replace_pair is_one "/" (slashes (tildes s)) ≡ tildes s
replace_pair-slashes String.[] = unfold replace_char replace_pair in refl
replace_pair-slashes (String.◌∷◌ c s) = elim (Bool-cases (is_tilde c)) [
  | inl e ↦
      rw
        (
          replace_char-hit is_tilde "0" c s e,
          slashes-tilde (tildes s),
          replace_pair-tilde is_one "/" "0" (slashes (tildes s)) refl,
          replace_pair-other is_one "/" "0" (slashes (tildes s)) refl,
          replace_pair-slashes s,
        )
        refl
  | inr e ↦ elim (Bool-cases (is_slash c)) [
    | inl f ↦
        rw
          (
            replace_char-miss is_tilde "0" c s e,
            replace_char-hit is_slash "1" c (tildes s) f,
            replace_pair-hit is_one "/" "1" (slashes (tildes s)) refl,
            replace_pair-slashes s,
          )
          (ap (λ x. String.◌∷◌ x (tildes s)) (slash_is c f))
    | inr f ↦
        rw
          (
            replace_char-miss is_tilde "0" c s e,
            replace_char-miss is_slash "1" c (tildes s) f,
            replace_pair-other is_one "/" c (slashes (tildes s)) e,
            replace_pair-slashes s,
          )
          refl
  ]
]

unescape-escape : (s : String) → unescape (escape s) ≡ s
unfolding unescape escape
unescape-escape s = rw (replace_pair-slashes s, replace_pair-tildes s) refl

escape-is_escaped : (s : String) → is_escaped false (escape s) ≡ true
unfolding is_escaped replace_char escape
escape-is_escaped String.[] = refl
escape-is_escaped (String.◌∷◌ c s) = ground (arith, escape-is_escaped s)

-- An escaped key has no slash, so a split ends it at the slash that follows.
split-slash : (s : String) → split (String.◌∷◌ "/" s) ≡ String.[] ∷ split s
unfolding split
split-slash s = refl

split-other :
    (c : Char) (s : String) → is_slash c ≡ false → split (String.◌∷◌ c s) ≡ before_first c (split s)
unfolding split
split-other c s h = rw h refl

split-key :
    (s r : String)
    → split (append (slashes (tildes s)) (String.◌∷◌ "/" r)) ≡ slashes (tildes s) ∷ split r
unfolding split append replace_char
split-key String.[] r = refl
split-key (String.◌∷◌ c s) r = ground (arith, split-key s r)

split-last : (s : String) → split (append (slashes (tildes s)) String.[]) ≡ slashes (tildes s) ∷ []
unfolding split append replace_char
split-last String.[] = refl
split-last (String.◌∷◌ c s) = ground (arith, split-last s)

-- The keys of a path, each escaped.
abbrev parts : List String → List String
parts [] = []
parts (k ∷ ks) = escape k ∷ parts ks

split-path_of :
    (k : String) (ks : List String) → split (append (escape k) (path_of ks)) ≡ escape k ∷ parts ks
unfolding escape path_of
split-path_of k [] = split-last k
split-path_of k (j ∷ ks) =
    rw (split-key k (append (escape j) (path_of ks))) (ap (λ l. escape k ∷ l) (split-path_of j ks))

decode_tokens-parts : (ks : List String) → decode_tokens (parts ks) ≡ ok ks
unfolding decode_tokens
decode_tokens-parts [] = refl
decode_tokens-parts (k ∷ ks) =
    rw (escape-is_escaped k, decode_tokens-parts ks, unescape-escape k) refl

-- The path of any nonempty sequence of keys, as the property index builds it, is a pointer that
-- `pointer_tokens` decodes to those keys, whatever characters they hold.
pub pointer_tokens-path_of :
    (key : String) (keys : List String) → pointer_tokens (path_of (key ∷ keys)) ≡ ok (key ∷ keys)
unfolding pointer_tokens path_of
pointer_tokens-path_of key keys = rw (split-path_of key keys) (decode_tokens-parts (key ∷ keys))
