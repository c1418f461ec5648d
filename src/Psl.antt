-- ===== src/Psl.antt =====
-- psl.py: the public suffix of a DNS name under the ICANN rules, and the class of the name.
pub mod Suffixes
mod Tests
use Prim.Native.Char.{Char, code}
use justpen_knowledgebase_mc.Base.{
  ℕ, ◌+◌, ◌-◌, String, Bool, true, false, ◌&&◌, Option, none, some, List, [], ◌∷◌, Result, ok, err,
  validation, runtime, raise_if, ◌>>=◌, ◌>>◌, ltb, leb, ◌==◌, str_eq, any, length, if◌then◌else◌,
}

pub record Rules : Type 0 where
  pub exact : List String
  pub wildcards : List String
  pub exceptions : List String

-- One rule, whose line is stripped; an empty line and a comment are no rules.
unfoldable pub add_rule : String → Rules → Rules
add_rule String.[] rules = rules
add_rule (String.◌∷◌ a String.[]) rules =
    if code a == b'!'
    then record rules { exceptions = String.[] ∷ rules.exceptions }
    else record rules { exact = String.◌∷◌ a String.[] ∷ rules.exact }
add_rule (String.◌∷◌ a (String.◌∷◌ b s)) rules =
    if code a == b'/' && code b == b'/'
    then rules
    else if code a == b'!'
    then record rules { exceptions = String.◌∷◌ b s ∷ rules.exceptions }
    else if code a == b'*' && code b == b'.'
    then record rules { wildcards = s ∷ rules.wildcards }
    else record rules { exact = String.◌∷◌ a (String.◌∷◌ b s) ∷ rules.exact }

unfoldable pub add_rules : List String → Rules → Rules
add_rules [] rules = rules
add_rules (line ∷ lines) rules = add_rules lines (add_rule line rules)

-- `_parse_rules` of the decoded lines, each stripped.
unfoldable pub parse_rules : List String → Result Rules
parse_rules lines = do
  let rules = add_rules lines (record { exact = []; wildcards = []; exceptions = [] })
  raise_if (length rules.exact == 0) (runtime "bundled PSL snapshot contains no exact rules")
  ok rules

abbrev pub append : String → String → String
append String.[] t = t
append (String.◌∷◌ c s) t = String.◌∷◌ c (append s t)

-- `".".join(labels)`
unfoldable pub join : List String → String
join [] = ""
join (l ∷ []) = l
join (l ∷ m ∷ ls) = append l (String.◌∷◌ "." (join (m ∷ ls)))

-- `name in rules`
abbrev pub holds : String → List String → Bool
holds name = any (λ r. str_eq r name)

abbrev pub max : ℕ → ℕ → ℕ
max a b = if leb b a then a else b

-- The greatest length of an exception, if there is one, and `rule_length`.
pub record Lengths : Type 0 where
  pub exception : Option ℕ
  pub rule : ℕ

abbrev pub max_option : Option ℕ → ℕ → Option ℕ
max_option none n = some n
max_option (some m) n = some (max m n)

-- One round of the loop, at a suffix of so many labels; `inner` is `index > 0`.
unfoldable pub examine_suffix : Rules → Bool → String → ℕ → Lengths → Lengths
examine_suffix rules inner suffix n seen =
    let exact = if holds suffix rules.exact then max seen.rule n else seen.rule in
    record {
      exception =
          if holds suffix rules.exceptions then max_option seen.exception n else seen.exception;
      rule = if inner && holds suffix rules.wildcards then max exact (n + 1) else exact;
    }

unfoldable pub examine_suffixes : Rules → Bool → List String → Lengths → Lengths
examine_suffixes rules inner [] seen = seen
examine_suffixes rules inner (l ∷ ls) seen =
    examine_suffixes rules true ls
      (examine_suffix rules inner (join (l ∷ ls)) (length (l ∷ ls)) seen)

-- The `return` statements of `_public_suffix_length`.
unfoldable pub suffix_length : Lengths → Option ℕ
suffix_length seen = elim seen.exception [
  | some n ↦ some (n - 1)
  | none ↦ if seen.rule == 0 then none else some seen.rule
]

unfoldable pub public_suffix_length : List String → Rules → Option ℕ
public_suffix_length labels rules =
    suffix_length (examine_suffixes rules false labels (record { exception = none; rule = 0 }))

abbrev pub before_first : Char → List String → List String
before_first c [] = String.◌∷◌ c String.[] ∷ []
before_first c (t ∷ ts) = String.◌∷◌ c t ∷ ts

-- `name.split(".")`
unfoldable pub labels_of : String → List String
labels_of String.[] = String.[] ∷ []
labels_of (String.◌∷◌ c s) =
    if code c == b'.' then String.[] ∷ labels_of s else before_first c (labels_of s)

pub data Class : Type 0 where
  domain subdomain : Class

abbrev pub is_suffix : Option ℕ → ℕ → Bool
is_suffix none n = false
is_suffix (some m) n = n == m

-- The class of a name of so many labels.
abbrev pub class_of : Option ℕ → ℕ → Class
class_of none n = if n == 2 then domain else subdomain
class_of (some m) n = if n == m + 1 then domain else subdomain

unfoldable pub classify_dns_name : Rules → String → Result Class
classify_dns_name rules name = do
  let n = length (labels_of name)
  let suffix = public_suffix_length (labels_of name) rules
  raise_if (is_suffix suffix n) (validation "DNS name is a public suffix")
  raise_if (ltb n 2) (validation "DNS name must contain at least two labels")
  ok (class_of suffix n)
