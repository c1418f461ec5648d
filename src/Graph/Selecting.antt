-- ===== src/Graph/Selecting.antt =====
-- About `_next_rejection_intent` of storage/deletions.py: the intent that it finds, and the probes that
-- it drops.
use mathlib.Core.Path.{subst}
use justpen_knowledgebase_mc.Base.{
  String, ◌≡◌, refl, sym, ◌∙◌, ap, Bool, true, false, ◌⊎◌, List, [], ◌∷◌, arith, Option, some, none,
  Option-cases, Bool-cases, inl, inr, ◌==◌, any, eq_refl,
}
use justpen_knowledgebase_mc.Graph.Tables.{
  Kind, nodes, relations, evidence, Deletion, Owner, Store, first_row, rows_of, row_by_id,
}
use justpen_knowledgebase_mc.Graph.Rows.{Sub, UniqueIds, first_row-any, first_row-none}
use justpen_knowledgebase_mc.Graph.Deletions.{
  DeleteIntent, is_intent_of, is_mismatch, same_deletion, same_flag,
}
use justpen_knowledgebase_mc.Graph.Rejections.{
  Probe, node_of_type, any_node, any_relation, probe_kind, is_probed, intent_of, probe, next_intent,
}
use justpen_knowledgebase_mc.Graph.Sweeps.{IsKeyed}
use justpen_knowledgebase_mc.Graph.Stepping.{is_evidence}

same_flag_refl : (b : Bool) → same_flag b b ≡ true
same_flag_refl true = refl
same_flag_refl false = refl

pub same_deletion_refl : (d : Deletion) → same_deletion d (some d) ≡ true
same_deletion_refl d = rw (eq_refl d.job_id, same_flag_refl d.cascade) (ground arith)

-- The row that a probe finds is the row of its id.
pub first_row-id :
    (p : Owner → Bool) (os : List Owner) (o : Owner)
    → UniqueIds os
    → first_row p os ≡ some o
    → first_row (λ (x : Owner). x.id == o.id) os ≡ some o
unfolding first_row UniqueIds
first_row-id p [] o un h = cc
first_row-id p (x ∷ xs) o (fresh, un) h = elim (Bool-cases (p x)) [
  | inl e ↦
      let same : x ≡ o = ground (arith, e) in
      let here : (x.id == o.id) ≡ true =
        subst (λ (y : Owner). (x.id == y.id) ≡ true) same (ground arith) in
      rw here (ap some same)
  | inr e ↦
      let later : first_row p xs ≡ some o = ground (arith, e) in
      let among : any (λ (y : Owner). y.id == o.id) xs ≡ true =
        (first_row-any p xs o later).1 (λ (y : Owner). y.id == o.id) (ground arith) in
      let rest = first_row-id p xs o un later in
      elim (Bool-cases (x.id == o.id)) [
        | inr f ↦ rw f rest
        | inl f ↦
            let same : x.id ≡ o.id = ground (arith, f) in
            absurd
              (let no = subst (λ k. any (λ (y : Owner). y.id == k) xs ≡ false) same fresh in cc)
      ]
]

pub rows-UniqueIds : (kind : Kind) (s : Store) → IsKeyed s → UniqueIds (rows_of kind s)
rows-UniqueIds nodes s k = k.keyed_nodes
rows-UniqueIds relations s k = k.keyed_relations
rows-UniqueIds evidence s k = k.keyed_evidence

-- The intent of a row is the stored one, so a step does not refuse it.
intent_of-matches :
    (kind : Kind) (p : Owner → Bool) (s : Store) (o : Owner) (i : DeleteIntent)
    → IsKeyed s
    → first_row p (rows_of kind s) ≡ some o
    → intent_of kind o ≡ some i
    → (row_by_id s i.kind i.owner_id ≡ some o) × (is_mismatch i o ≡ false)
unfolding intent_of
intent_of-matches kind p s o i k found h = elim (Option-cases o.deletion) [
  | inl e ↦ absurd (ground (arith, e))
  | inr (d, e) ↦
      let stored : DeleteIntent = record {
        kind = kind;
        owner_id = o.id;
        uuid = o.uuid;
        deletion = d;
      } in
      let same : stored ≡ i = ground (arith, e) in
      subst
        (λ (x : DeleteIntent). (row_by_id s x.kind x.owner_id ≡ some o) × (is_mismatch x o ≡ false))
        same
        (
          first_row-id p (rows_of kind s) o (rows-UniqueIds kind s k) found,
          rw (e, eq_refl o.uuid, same_deletion_refl d) refl,
        )
]

probe-matches :
    (s : Store) (job : String) (p : Probe) (i : DeleteIntent)
    → IsKeyed s
    → probe s job p ≡ some i
    → (o : Owner) × (row_by_id s i.kind i.owner_id ≡ some o) × (is_mismatch i o ≡ false)
unfolding probe
probe-matches s job p i k h =
    elim (Option-cases (first_row (is_probed job p) (rows_of (probe_kind p) s))) [
      | inl e ↦ absurd (ground (arith, e))
      | inr (o, e) ↦
          let (row, same) =
            intent_of-matches (probe_kind p) (is_probed job p) s o i k e (ground (arith, e)) in
          (o, row, same)
    ]

probe-deletable :
    (s : Store) (job : String) (p : Probe) (i : DeleteIntent)
    → probe s job p ≡ some i
    → is_evidence i.kind ≡ false
unfolding probe intent_of
probe-deletable s job p i h =
    elim (Option-cases (first_row (is_probed job p) (rows_of (probe_kind p) s))) [
      | inl e ↦ absurd (ground (arith, e))
      | inr (o, e) ↦ elim (Option-cases o.deletion) [
        | inl f ↦ absurd (ground (arith, e, f))
        | inr (d, f) ↦
            let stored : DeleteIntent = record {
              kind = probe_kind p;
              owner_id = o.id;
              uuid = o.uuid;
              deletion = d;
            } in
            let same : stored ≡ i = ground (arith, e, f) in
            subst (λ (x : DeleteIntent). is_evidence x.kind ≡ false) same (never p)
      ]
    ]
  where
    never : (q : Probe) → is_evidence (probe_kind q) ≡ false
    never (node_of_type t) = refl
    never any_node = refl
    never any_relation = refl

-- A row that a probe meets has an intent.
probed-deletion :
    (job : String) (p : Probe) (o : Owner)
    → is_probed job p o ≡ true
    → (d : Deletion) × (o.deletion ≡ some d)
probed-deletion job p o h = elim (Option-cases o.deletion) [
  | inr (d, e) ↦ (d, e)
  | inl e ↦ absurd (no_intent p h e)
]
  where
    no_intent : (q : Probe) → is_probed job q o ≡ true → o.deletion ≡ none → ⊥
    no_intent (node_of_type t) h e = ground (arith, e)
    no_intent any_node h e = ground (arith, e)
    no_intent any_relation h e = ground (arith, e)

probe-none :
    (s : Store) (job : String) (p : Probe)
    → probe s job p ≡ none
    → any (is_probed job p) (rows_of (probe_kind p) s) ≡ false
unfolding probe intent_of
probe-none s job p h =
    elim (Option-cases (first_row (is_probed job p) (rows_of (probe_kind p) s))) [
      | inl e ↦ first_row-none (is_probed job p) (rows_of (probe_kind p) s) e
      | inr (o, e) ↦
          let met = (first_row-any (is_probed job p) (rows_of (probe_kind p) s) o e).0 in
          let (d, f) = probed-deletion job p o met in absurd (ground (arith, e, f))
    ]

abbrev pub is_any_node : Probe → Bool
is_any_node any_node = true
is_any_node _ = false

abbrev pub is_any_relation : Probe → Bool
is_any_relation any_relation = true
is_any_relation _ = false

-- A probe of all nodes or of all relations that was dropped has no row to find.
pub record Pends (job : String) (ps : List Probe) (s : Store) : Type 0 where
  pub nodes_pend : (any is_any_node ps ≡ true) ⊎ (any (is_intent_of job) s.node_rows ≡ false)
  pub relations_pend :
      (any is_any_relation ps ≡ true) ⊎ (any (is_intent_of job) s.relation_rows ≡ false)

drop-Pends :
    (job : String) (p : Probe) (ps : List Probe) (s : Store)
    → probe s job p ≡ none
    → Pends job (p ∷ ps) s
    → Pends job ps s
drop-Pends job (node_of_type t) ps s h pends = record {
  nodes_pend = pends.nodes_pend;
  relations_pend = pends.relations_pend;
}
drop-Pends job any_node ps s h pends = record {
  nodes_pend = inr (probe-none s job any_node h);
  relations_pend = pends.relations_pend;
}
drop-Pends job any_relation ps s h pends = record {
  nodes_pend = pends.nodes_pend;
  relations_pend = inr (probe-none s job any_relation h);
}

pub Sub-Pends :
    (job : String) (ps : List Probe) (s s' : Store)
    → Sub s'.node_rows s.node_rows
    → Sub s'.relation_rows s.relation_rows
    → Pends job ps s
    → Pends job ps s'
Sub-Pends job ps s s' ns rs pends = record {
  nodes_pend = elim pends.nodes_pend [ inl h ↦ inl h | inr h ↦ inr (ns (is_intent_of job) h) ];
  relations_pend = elim pends.relations_pend [
    | inl h ↦ inl h
    | inr h ↦ inr (rs (is_intent_of job) h)
  ];
}

-- What the selection of the next intent finds.
pub record Next (s : Store) (job : String) (found : Option DeleteIntent) (live : List Probe)
    : Type 0 where
  pub pends : Pends job live s
  pub ended : found ≡ none → live ≡ []
  pub matches :
      (i : DeleteIntent)
      → found ≡ some i
      → (o : Owner) × (row_by_id s i.kind i.owner_id ≡ some o) × (is_mismatch i o ≡ false)
  pub deletable : (i : DeleteIntent) → found ≡ some i → is_evidence i.kind ≡ false

pub next_intent-Next :
    (s : Store) (job : String) (ps : List Probe)
    → IsKeyed s
    → Pends job ps s
    → Next s job (next_intent s job ps).0 (next_intent s job ps).1
unfolding next_intent
next_intent-Next s job [] k pends = record {
  pends = pends;
  ended = λ h. refl;
  matches = λ i h. absurd (cc h);
  deletable = λ i h. absurd (cc h);
}
next_intent-Next s job (p ∷ ps) k pends = elim (Option-cases (probe s job p)) [
  | inl e ↦
      let same : next_intent s job ps ≡ next_intent s job (p ∷ ps) = ground (arith, e) in
      subst (λ (r : Option DeleteIntent × List Probe). Next s job r.0 r.1) same
        (next_intent-Next s job ps k (drop-Pends job p ps s e pends))
  | inr (i, e) ↦
      let same : next_intent s job (p ∷ ps) ≡ (some i, p ∷ ps) = ground (arith, e) in
      subst (λ (r : Option DeleteIntent × List Probe). Next s job r.0 r.1) (sym same)
        (record {
          pends = pends;
          ended = λ h. absurd (cc h);
          matches = λ j h. probe-matches s job p j k (e ∙ h);
          deletable = λ j h. probe-deletable s job p j (e ∙ h);
        })
]
