-- ===== src/Graph/Claims.antt =====
-- About `GraphDeletion.prepare` of storage/deletions.py: the claims of the nodes, and the evidence that
-- they rest on.
use mathlib.Core.Path.{subst}
use mathlib.Core.List.Memᴰ
use justpen_knowledgebase_mc.Base.{
  ℕ, String, ◌≡◌, refl, sym, ap, true, false, ◌&&◌, List, [], ◌∷◌, arith, Memᴰ, some, none,
  Option-cases, Bool-cases, Result-cases, inl, inr, ◌==◌, str_eq, eq_iff, eq_refl, ok, any, All,
  All-map, Mem-any,
}
use justpen_knowledgebase_mc.Graph.Tables.{
  Kind, Owner, Child, Store, node_evidence, by_evidence, is_child, is_id, first_row, rows_of,
  row_by_id, row_by_uuid, require_ready,
}
use justpen_knowledgebase_mc.Graph.Rows.{UniqueIds, first_row-any, first_row-none}
use justpen_knowledgebase_mc.Graph.Admitting.{
  DeleteRequest, reject_uncascaded, reject_unbacked, validate_row, validate_rows, found_rows,
}
use justpen_knowledgebase_mc.Graph.Blocking.{
  is_one_of, claim_held, is_ready, is_ready_link, is_bare, bare_claim, reject_scope_orphan,
}
use justpen_knowledgebase_mc.Graph.Selecting.{first_row-id}

-- No two rows have one uuid: the unique index of the table.
unfoldable pub UniqueUuids : List Owner → Type 0
UniqueUuids [] = Unit
UniqueUuids (o ∷ os) = (any (λ (x : Owner). str_eq x.uuid o.uuid) os ≡ false) × UniqueUuids os

-- A ready node that holds a claim has a link to ready evidence.
abbrev pub BackedBy : List Owner → List Child → Owner → Type 0
BackedBy sources links n =
    is_ready n ≡ true → claim_held n ≡ true → any (is_ready_link sources [] n.id) links ≡ true

abbrev pub Backed : Store → Type 0
Backed s = All (BackedBy s.evidence_rows s.children) s.node_rows

pub first_row-of_id :
    (e : Owner) (os : List Owner)
    → UniqueIds os
    → Memᴰ e os
    → first_row (λ (x : Owner). x.id == e.id) os ≡ some e
unfolding first_row UniqueIds
first_row-of_id e [] un m = absurd (Memᴰ.not-nil m)
first_row-of_id e (o ∷ os) (fresh, un) m = elim (Memᴰ.cases_cons m) [
  | inl h ↦
      let here : (o.id == e.id) ≡ true =
        subst (λ (x : Owner). (x.id == e.id) ≡ true) h (ground arith) in
      rw here (ap some (sym h))
  | inr n ↦ elim (Bool-cases (o.id == e.id)) [
    | inr f ↦ rw f (first_row-of_id e os un n)
    | inl f ↦
        let same : o.id ≡ e.id = ground (arith, f) in
        absurd (
          let no = Mem-any (λ (x : Owner). x.id == o.id) e os n (rw same (ground arith)) in
          cc (no, fresh))
  ]
]

pub first_row-of_uuid :
    (e : Owner) (os : List Owner)
    → UniqueUuids os
    → Memᴰ e os
    → first_row (λ (x : Owner). str_eq x.uuid e.uuid) os ≡ some e
unfolding first_row UniqueUuids
first_row-of_uuid e [] un m = absurd (Memᴰ.not-nil m)
first_row-of_uuid e (o ∷ os) (fresh, un) m = elim (Memᴰ.cases_cons m) [
  | inl h ↦
      let here : str_eq o.uuid e.uuid ≡ true =
        subst (λ (x : Owner). str_eq x.uuid e.uuid ≡ true) h (eq_refl e.uuid) in
      rw here (ap some (sym h))
  | inr n ↦ elim (Bool-cases (str_eq o.uuid e.uuid)) [
    | inr f ↦ rw f (first_row-of_uuid e os un n)
    | inl f ↦
        let same : o.uuid ≡ e.uuid = (eq_iff o.uuid e.uuid).0 f in
        absurd (
          let no =
            Mem-any (λ (x : Owner). str_eq x.uuid o.uuid) e os n (rw same (eq_refl e.uuid)) in
          cc (no, fresh))
  ]
]

-- A row of a requested uuid is among the rows of the request, and those are rows of requested uuids.
pub found_rows-Mem :
    (s : Store) (kind : Kind) (e : Owner) (us : List String)
    → row_by_uuid s kind e.uuid ≡ some e
    → is_one_of us e.uuid ≡ true
    → Memᴰ e (found_rows s kind us)
unfolding found_rows
found_rows-Mem s kind e [] row h = absurd (cc h)
found_rows-Mem s kind e (u ∷ us) row h = elim (Bool-cases (str_eq e.uuid u)) [
  | inl f ↦
      let at_u : row_by_uuid s kind u ≡ some e =
        subst (λ v. row_by_uuid s kind v ≡ some e) ((eq_iff e.uuid u).0 f) row in
      let same : e ∷ found_rows s kind us ≡ found_rows s kind (u ∷ us) = ground (arith, at_u) in
      subst (Memᴰ e) same (Memᴰ.head refl)
  | inr f ↦
      let later = found_rows-Mem s kind e us row (ground (arith, f, h)) in
      elim (Option-cases (row_by_uuid s kind u)) [
        | inl g ↦
            let same : found_rows s kind us ≡ found_rows s kind (u ∷ us) = ground (arith, g) in
            subst (Memᴰ e) same later
        | inr (o, g) ↦
            let same : o ∷ found_rows s kind us ≡ found_rows s kind (u ∷ us) = ground (arith, g) in
            subst (Memᴰ e) same (Memᴰ.tail later)
      ]
]

abbrev pub Requested : Store → Kind → List String → Owner → Type 0
Requested s kind ids row = (row_by_id s kind row.id ≡ some row) × (is_one_of ids row.uuid ≡ true)

pub found_rows-Requested :
    (s : Store) (kind : Kind) (us : List String)
    → UniqueIds (rows_of kind s)
    → All (Requested s kind us) (found_rows s kind us)
unfolding found_rows
found_rows-Requested s kind [] un = tt
found_rows-Requested s kind (u ∷ us) un =
    let rest =
      All-map (Requested s kind us) (Requested s kind (u ∷ us))
        (λ row h. (h.0, ground (arith, h.1))) (found_rows s kind us)
        (found_rows-Requested s kind us un) in
    elim (Option-cases (row_by_uuid s kind u)) [
      | inl e ↦
          let same : found_rows s kind us ≡ found_rows s kind (u ∷ us) = ground (arith, e) in
          subst (All (Requested s kind (u ∷ us))) same rest
      | inr (o, e) ↦
          let same : o ∷ found_rows s kind us ≡ found_rows s kind (u ∷ us) = ground (arith, e) in
          let named = (first_row-any _ (rows_of kind s) o e).0 in
          subst (All (Requested s kind (u ∷ us))) same
            ((first_row-id _ (rows_of kind s) o un e, ground (arith, named)), rest)
    ]

-- Every row of an admitted request passed the check of the bare claims.
pub validate_rows-All :
    (scoped : List String) (s : Store) (request : DeleteRequest) (rows : List Owner)
    → validate_rows scoped s request rows ≡ ok tt
    → All (λ row. reject_unbacked request.kind s request row ≡ ok tt) rows
unfolding validate_rows
validate_rows-All scoped s request [] h = tt
validate_rows-All scoped s request (row ∷ rows) h =
    elim (Result-cases (validate_row scoped s request row)) [
      | inl (x, e) ↦ absurd (ground (arith, e, h))
      | inr (tt, e) ↦ (passed e, validate_rows-All scoped s request rows (ground (arith, e, h)))
    ]
  where
    passed :
        validate_row scoped s request row ≡ ok tt
        → reject_unbacked request.kind s request row ≡ ok tt
    passed e =
        unfold validate_row in
        elim (Result-cases (require_ready s request.kind row)) [
          | inl (x, f) ↦ absurd (ground (arith, e, f))
          | inr (tt, f) ↦ elim (Result-cases (reject_scope_orphan scoped s request.kind row)) [
            | inl (x, g) ↦ absurd (ground (arith, e, f, g))
            | inr (tt, g) ↦ elim (Result-cases (reject_uncascaded s request row)) [
              | inl (x, k) ↦ absurd (ground (arith, e, f, g, k))
              | inr (tt, k) ↦ ground (arith, e, f, g, k)
            ]
          ]
        ]

pub bare_claim-none :
    (s : Store) (ids : List String) (owner : ℕ) (c : Child) (cs : List Child)
    → bare_claim s ids owner cs ≡ none
    → Memᴰ c cs
    → is_child (node_evidence, by_evidence) owner c ≡ true
    → any (λ (n : Owner). is_id n.id c.node_id && is_bare s ids n) s.node_rows ≡ false
unfolding bare_claim
bare_claim-none s ids owner c [] h m child = absurd (Memᴰ.not-nil m)
bare_claim-none s ids owner c (x ∷ xs) h m child =
    let bare = λ (y : Child) (n : Owner). is_id n.id y.node_id && is_bare s ids n in
    elim (Memᴰ.cases_cons m) [
      | inl same ↦
          let here : is_child (node_evidence, by_evidence) owner x ≡ true =
            subst (λ y. is_child (node_evidence, by_evidence) owner y ≡ true) same child in
          elim (Option-cases (first_row (bare x) s.node_rows)) [
            | inr (n, e) ↦ absurd (ground (arith, here, e, h))
            | inl e ↦
                subst (λ y. any (bare y) s.node_rows ≡ false) (sym same)
                  (first_row-none (bare x) s.node_rows e)
          ]
      | inr later ↦ elim (Bool-cases (is_child (node_evidence, by_evidence) owner x)) [
        | inr f ↦ bare_claim-none s ids owner c xs (ground (arith, f, h)) later child
        | inl f ↦ elim (Option-cases (first_row (bare x) s.node_rows)) [
          | inr (n, e) ↦ absurd (ground (arith, f, e, h))
          | inl e ↦ bare_claim-none s ids owner c xs (ground (arith, f, e, h)) later child
        ]
      ]
    ]
