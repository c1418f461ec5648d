-- ===== src/Properties/Pointer.antt =====
-- `pointer_tokens` of mutations.py, and the escape that `flatten_properties` of indexing.py writes.
use Prim.Native.Char.{Char, code}
use justpen_knowledgebase_mc.Base.{
  String, Bool, true, false, ◌||◌, ◌&&◌, not, List, [], ◌∷◌, Result, ok, validation, raise_if,
  ◌>>=◌, ◌>>◌, ◌==◌, if◌then◌else◌,
}

abbrev pub is_tilde : Char → Bool
is_tilde c = code c == b'~'

abbrev pub is_slash : Char → Bool
is_slash c = code c == b'/'

-- `s + t`
unfoldable pub append : String → String → String
append String.[] t = t
append (String.◌∷◌ c s) t = String.◌∷◌ c (append s t)

-- `s.replace(x, "~" + d)` for the character x that `is` names
unfoldable pub replace_char : (Char → Bool) → Char → String → String
replace_char is d String.[] = String.[]
replace_char is d (String.◌∷◌ c s) =
    if is c
    then String.◌∷◌ "~" (String.◌∷◌ d (replace_char is d s))
    else String.◌∷◌ c (replace_char is d s)

-- `s.replace("~" + d, t)` for the character d that `is` names
unfoldable pub replace_pair : (Char → Bool) → Char → String → String
replace_pair is t String.[] = String.[]
replace_pair is t (String.◌∷◌ c String.[]) = String.◌∷◌ c String.[]
replace_pair is t (String.◌∷◌ c (String.◌∷◌ d s)) =
    if is_tilde c && is d
    then String.◌∷◌ t (replace_pair is t s)
    else String.◌∷◌ c (replace_pair is t (String.◌∷◌ d s))

abbrev pub is_zero : Char → Bool
is_zero c = code c == b'0'

abbrev pub is_one : Char → Bool
is_one c = code c == b'1'

-- `key.replace("~", "~0").replace("/", "~1")`
unfoldable pub escape : String → String
escape key = replace_char is_slash "1" (replace_char is_tilde "0" key)

-- `token.replace("~1", "/").replace("~0", "~")`
unfoldable pub unescape : String → String
unescape token = replace_pair is_zero "~" (replace_pair is_one "/" token)

-- The scan for malformed escapes: the flag says that a tilde stands before the position.
unfoldable pub is_escaped : Bool → String → Bool
is_escaped after String.[] = not after
is_escaped true (String.◌∷◌ c s) = (is_zero c || is_one c) && is_escaped false s
is_escaped false (String.◌∷◌ c s) = is_escaped (is_tilde c) s

-- A character before the first of the parts.
abbrev pub before_first : Char → List String → List String
before_first c [] = String.◌∷◌ c String.[] ∷ []
before_first c (t ∷ ts) = String.◌∷◌ c t ∷ ts

-- `s.split("/")`
unfoldable pub split : String → List String
split String.[] = String.[] ∷ []
split (String.◌∷◌ c s) = if is_slash c then String.[] ∷ split s else before_first c (split s)

unfoldable pub decode_tokens : List String → Result (List String)
decode_tokens [] = ok []
decode_tokens (token ∷ rest) = do
  raise_if (not (is_escaped false token)) (validation "invalid pointer escape")
  tokens ← decode_tokens rest
  ok (unescape token ∷ tokens)

unfoldable pub pointer_tokens : String → Result (List String)
pointer_tokens String.[] = do
  raise_if true (validation "property pointer must start with slash")
  ok []
pointer_tokens (String.◌∷◌ c s) = do
  raise_if (not (is_slash c)) (validation "property pointer must start with slash")
  decode_tokens (split s)

-- The path that `visit` of `flatten_properties` builds down through objects.
unfoldable pub path_of : List String → String
path_of [] = String.[]
path_of (key ∷ keys) = String.◌∷◌ "/" (append (escape key) (path_of keys))
