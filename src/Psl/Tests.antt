-- ===== src/Psl/Tests.antt =====
-- A name under a wildcard rule, and the theorems applied to it.
use justpen_knowledgebase_mc.Base.{
  ◌<◌, ◌≤◌, ◌≡◌, refl, some, String, List, [], ◌∷◌, ok, err, validation, length, if◌then◌else◌,
  ◌==◌, ◌+◌,
}
use justpen_knowledgebase_mc.Psl.{
  Rules, add_rule, add_rules, parse_rules, join, examine_suffix, examine_suffixes, suffix_length,
  public_suffix_length, labels_of, domain, subdomain, classify_dns_name,
}
use justpen_knowledgebase_mc.Psl.Suffixes.{
  public_suffix_length-le, suffix_or_last, classify_dns_name-above,
}

abbrev rules : Rules
rules = record { exact = "com" ∷ []; wildcards = "ck" ∷ []; exceptions = "www.ck" ∷ [] }

rules_parse : parse_rules ("// ICANN" ∷ "" ∷ "!www.ck" ∷ "*.ck" ∷ "com" ∷ []) ≡ ok rules
unfolding parse_rules add_rules add_rule
rules_parse = refl

abbrev wild : List String
wild = "a" ∷ "b" ∷ "ck" ∷ []

wildcard : public_suffix_length wild rules ≡ some 2
unfolding public_suffix_length suffix_length examine_suffixes examine_suffix join
wildcard = refl

except : classify_dns_name rules "www.ck" ≡ ok domain
unfolding classify_dns_name labels_of public_suffix_length suffix_length examine_suffixes
    examine_suffix join
except = refl

public : classify_dns_name rules "b.ck" ≡ err (validation "DNS name is a public suffix")
unfolding classify_dns_name labels_of public_suffix_length suffix_length examine_suffixes
    examine_suffix join
public = refl

public_suffix_length-le_example : 2 ≤ length wild
public_suffix_length-le_example = public_suffix_length-le rules wild 2 wildcard

classify_dns_name-above_example :
    (2 ≤ length (labels_of "www.ck"))
    × (suffix_or_last (public_suffix_length (labels_of "www.ck") rules)
        < length (labels_of "www.ck"))
    × (domain ≡ (
        if length (labels_of "www.ck")
          == suffix_or_last (public_suffix_length (labels_of "www.ck") rules) + 1
        then domain
        else subdomain))
classify_dns_name-above_example = classify_dns_name-above rules "www.ck" domain except
