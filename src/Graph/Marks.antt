-- ===== src/Graph/Marks.antt =====
-- About the updates of `GraphDeletion.prepare` of storage/deletions.py: the rows that they spare.
use mathlib.Core.Path.{subst}
use mathlib.Core.List.Memᴰ
use justpen_knowledgebase_mc.Base.{
  ℕ, ◌≡◌, refl, false, List, [], ◌∷◌, arith, Memᴰ, Bool-cases, inl, inr, ◌==◌, All,
}
use justpen_knowledgebase_mc.Graph.Tables.{
  Kind, nodes, relations, evidence, Deletion, Owner, Child, Store,
}
use justpen_knowledgebase_mc.Graph.Admitting.{set_pending, set_all_pending}
use justpen_knowledgebase_mc.Graph.Claims.{BackedBy}

set_pending-Mem :
    (i : ℕ) (d : Deletion) (e : Owner) (os : List Owner)
    → (e.id == i) ≡ false
    → Memᴰ e os
    → Memᴰ e (set_pending i d os)
unfolding set_pending
set_pending-Mem i d e [] h m = absurd (Memᴰ.not-nil m)
set_pending-Mem i d e (o ∷ os) h m = elim (Memᴰ.cases_cons m) [
  | inr n ↦ Memᴰ.tail (set_pending-Mem i d e os h n)
  | inl same ↦
      let at_o : (o.id == i) ≡ false = subst (λ (x : Owner). (x.id == i) ≡ false) same h in
      Memᴰ.head (rw at_o same)
]

pub set_evidence-Mem :
    (d : Deletion) (e : Owner) (rows : List Owner) (s : Store)
    → All (λ (row : Owner). (e.id == row.id) ≡ false) rows
    → Memᴰ e s.evidence_rows
    → Memᴰ e (set_all_pending evidence d rows s).evidence_rows
unfolding set_all_pending
set_evidence-Mem d e [] s h m = m
set_evidence-Mem d e (row ∷ rows) s h m =
    set_evidence-Mem d e rows _ h.1 (set_pending-Mem row.id d e s.evidence_rows h.0 m)

-- The other tables stay.
pub set_pending-children :
    (kind : Kind) (d : Deletion) (rows : List Owner) (s : Store)
    → (set_all_pending kind d rows s).children ≡ s.children
unfolding set_all_pending
set_pending-children kind d [] s = refl
set_pending-children nodes d (row ∷ rows) s = set_pending-children nodes d rows _
set_pending-children relations d (row ∷ rows) s = set_pending-children relations d rows _
set_pending-children evidence d (row ∷ rows) s = set_pending-children evidence d rows _

pub set_pending-evidence :
    (kind : Kind) (d : Deletion) (rows : List Owner) (s : Store)
    → (kind ≡ evidence → ⊥)
    → (set_all_pending kind d rows s).evidence_rows ≡ s.evidence_rows
unfolding set_all_pending
set_pending-evidence kind d [] s other = refl
set_pending-evidence nodes d (row ∷ rows) s other = set_pending-evidence nodes d rows _ other
set_pending-evidence relations d (row ∷ rows) s other =
    set_pending-evidence relations d rows _ other
set_pending-evidence evidence d (row ∷ rows) s other = absurd (other refl)

pub set_pending-nodes :
    (kind : Kind) (d : Deletion) (rows : List Owner) (s : Store)
    → (kind ≡ nodes → ⊥)
    → (set_all_pending kind d rows s).node_rows ≡ s.node_rows
unfolding set_all_pending
set_pending-nodes kind d [] s other = refl
set_pending-nodes nodes d (row ∷ rows) s other = absurd (other refl)
set_pending-nodes relations d (row ∷ rows) s other = set_pending-nodes relations d rows _ other
set_pending-nodes evidence d (row ∷ rows) s other = set_pending-nodes evidence d rows _ other

-- A node that is marked is not ready.
mark-BackedBy :
    (sources : List Owner) (links : List Child) (i : ℕ) (d : Deletion) (os : List Owner)
    → All (BackedBy sources links) os
    → All (BackedBy sources links) (set_pending i d os)
unfolding set_pending
mark-BackedBy sources links i d [] h = tt
mark-BackedBy sources links i d (o ∷ os) h = (
  elim (Bool-cases (o.id == i)) [
    | inl e ↦ rw e (λ ready held. absurd (ground (arith, ready)))
    | inr e ↦ rw e h.0
  ],
  mark-BackedBy sources links i d os h.1,
)

pub mark_all-BackedBy :
    (sources : List Owner) (links : List Child) (d : Deletion) (rows : List Owner) (s : Store)
    → All (BackedBy sources links) s.node_rows
    → All (BackedBy sources links) (set_all_pending nodes d rows s).node_rows
unfolding set_all_pending
mark_all-BackedBy sources links d [] s h = h
mark_all-BackedBy sources links d (row ∷ rows) s h =
    mark_all-BackedBy sources links d rows _ (mark-BackedBy sources links row.id d s.node_rows h)
