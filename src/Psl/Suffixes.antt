-- ===== src/Psl/Suffixes.antt =====
-- The suffix length and the classification of psl.py against the number of labels.
use justpen_knowledgebase_mc.Base.{
  ℕ, ◌+◌, ◌≤◌, ◌<◌, String, ◌≡◌, Bool, true, false, Option, none, some, List, [], ◌∷◌, arith, ok,
  ◌==◌, length, if◌then◌else◌, Option-cases, inl, inr,
}
use justpen_knowledgebase_mc.Psl.{
  Rules, Lengths, examine_suffix, examine_suffixes, suffix_length, public_suffix_length, labels_of,
  Class, domain, subdomain, classify_dns_name, join,
}

-- Both lengths are at most the number of labels of the name.
record IsWithin (n : ℕ) (seen : Lengths) : Type 0 where
  within_rule : seen.rule ≤ n
  within_exception : (m : ℕ) → seen.exception ≡ some m → m ≤ n

abbrev one : Bool → ℕ
one true = 1
one false = 0

examine_suffix-IsWithin :
    (n : ℕ) (rules : Rules) (inner : Bool) (suffix : String) (k : ℕ) (seen : Lengths)
    → k + one inner ≤ n
    → IsWithin n seen
    → IsWithin n (examine_suffix rules inner suffix k seen)
unfolding examine_suffix
examine_suffix-IsWithin n rules inner suffix k seen le w = record {
  within_rule = ground (arith, w.within_rule);
  within_exception = λ m h. elim (Option-cases seen.exception) [
    | inl e ↦ ground arith
    | inr (x, e) ↦ ground (arith, w.within_exception x e)
  ];
}

examine_suffixes-IsWithin :
    (n : ℕ) (rules : Rules) (inner : Bool) (labels : List String) (seen : Lengths)
    → length labels + one inner ≤ n
    → IsWithin n seen
    → IsWithin n (examine_suffixes rules inner labels seen)
unfolding examine_suffixes
examine_suffixes-IsWithin n rules inner [] seen le w = w
examine_suffixes-IsWithin n rules inner (l ∷ ls) seen le w =
    examine_suffixes-IsWithin n rules true ls
      (examine_suffix rules inner (join (l ∷ ls)) (length (l ∷ ls)) seen) (ground arith)
      (examine_suffix-IsWithin n rules inner (join (l ∷ ls)) (length (l ∷ ls)) seen le w)

suffix_length-le :
    (n m : ℕ) (seen : Lengths) → IsWithin n seen → suffix_length seen ≡ some m → m ≤ n
unfolding suffix_length
suffix_length-le n m seen w h = elim (Option-cases seen.exception) [
  | inl e ↦ ground (arith, w.within_rule)
  | inr (x, e) ↦ ground (arith, w.within_exception x e)
]

abbrev unseen : Lengths
unseen = record { exception = none; rule = 0 }

-- The public suffix of a name has at most as many labels as the name, whatever the rules are.
pub public_suffix_length-le :
    (rules : Rules) (labels : List String) (n : ℕ)
    → public_suffix_length labels rules ≡ some n
    → n ≤ length labels
unfolding public_suffix_length
public_suffix_length-le rules labels n h =
    suffix_length-le (length labels) n (examine_suffixes rules false labels unseen)
      (examine_suffixes-IsWithin (length labels) rules false labels unseen (omega arith)
        (record { within_rule = omega arith; within_exception = λ m e. cc }))
      h

-- The length of the public suffix, where a name that no rule names has its last label for one.
abbrev pub suffix_or_last : Option ℕ → ℕ
suffix_or_last none = 1
suffix_or_last (some n) = n

-- A name that is classified has two labels at least and more than its public suffix, where a name that
-- no rule names has its last label for one. It is a domain if it has exactly one label more than
-- that suffix, and a subdomain otherwise.
pub classify_dns_name-above :
    (rules : Rules) (name : String) (c : Class)
    → classify_dns_name rules name ≡ ok c
    → (2 ≤ length (labels_of name))
      × (suffix_or_last (public_suffix_length (labels_of name) rules) < length (labels_of name))
      × (c ≡ (
          if length (labels_of name)
            == suffix_or_last (public_suffix_length (labels_of name) rules) + 1
          then domain
          else subdomain))
unfolding classify_dns_name
classify_dns_name-above rules name c h =
    elim (Option-cases (public_suffix_length (labels_of name) rules)) [
      | inl e ↦ ground arith
      | inr (n, e) ↦ ground (arith, public_suffix_length-le rules (labels_of name) n e)
    ]
