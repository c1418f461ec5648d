-- ===== src/Graph/Backing.antt =====
-- About `GraphDeletion.prepare` of storage/deletions.py: what it leaves of the evidence of a claim.
use mathlib.Core.Path.{subst}
use justpen_knowledgebase_mc.Base.{
  ℕ, String, ◌≡◌, refl, sym, ◌∙◌, ap, true, false, ◌&&◌, List, [], ◌∷◌, arith, Option, Memᴰ, some,
  none, Option-cases, Bool-cases, inl, inr, ◌==◌, ok, any, All, All-intro, All-Mem, any-Mem,
  Mem-any,
}
use justpen_knowledgebase_mc.Graph.Tables.{
  Kind, nodes, relations, evidence, Deletion, Owner, Store, node_evidence, by_evidence, is_child,
  is_id, row_by_id,
}
use justpen_knowledgebase_mc.Graph.Rows.{UniqueIds}
use justpen_knowledgebase_mc.Graph.Deletions.{DeleteIntent}
use justpen_knowledgebase_mc.Graph.Admitting.{
  DeleteRequest, reject_unbacked, found_rows, set_all_pending, intent_deletion, prepare,
}
use justpen_knowledgebase_mc.Graph.Blocking.{
  is_one_of, claim_held, is_ready, is_ready_link, is_bare, bare_claim, reject_bare_claim,
}
use justpen_knowledgebase_mc.Graph.Accepting.{Admits, prepare-Admits}
use justpen_knowledgebase_mc.Graph.Marks.{
  set_evidence-Mem, set_pending-children, set_pending-evidence, set_pending-nodes,
  mark_all-BackedBy,
}
use justpen_knowledgebase_mc.Graph.Claims.{
  UniqueUuids, BackedBy, Backed, first_row-of_id, first_row-of_uuid, found_rows-Mem, Requested,
  found_rows-Requested, validate_rows-All, bare_claim-none,
}
use justpen_knowledgebase_mc.Graph.Links.{Source, Source-link, child-parts, link-Source}

reject_bare_claim-eq-ok :
    (s : Store) (ids : List String) (row : Owner)
    → reject_bare_claim s ids row ≡ ok tt
    → bare_claim s ids row.id s.children ≡ none
unfolding reject_bare_claim
reject_bare_claim-eq-ok s ids row h = elim (Option-cases (bare_claim s ids row.id s.children)) [
  | inl e ↦ e
  | inr (n, e) ↦ absurd (ground (arith, e, h))
]

module _ (s : Store) (ids : List String) (un : UniqueIds s.evidence_rows) where
  -- A link of a node whose claim is not bare without its evidence keeps the claim.
  kept-links :
      (n : Owner)
      → UniqueUuids s.evidence_rows
      → All (λ row. reject_bare_claim s ids row ≡ ok tt) (found_rows s evidence ids)
      → Memᴰ n s.node_rows
      → is_ready n ≡ true
      → claim_held n ≡ true
      → any (is_ready_link s.evidence_rows [] n.id) s.children ≡ true
      → any (is_ready_link s.evidence_rows ids n.id) s.children ≡ true
  kept-links n unique passed among ready held linked =
      elim (Bool-cases (any (is_ready_link s.evidence_rows ids n.id) s.children)) [
        | inl kept ↦ kept
        | inr lost ↦
            let (c, c_in, link) =
              any-Mem (is_ready_link s.evidence_rows [] n.id) s.children linked in
            let (child, e) = link-Source s.evidence_rows [] n.id c link in
            elim (Bool-cases (is_one_of ids e.row.uuid)) [
              | inr out ↦
                  let source : Source s.evidence_rows ids c = record {
                    row = e.row;
                    among = e.among;
                    linked = e.linked;
                    ready = e.ready;
                    outside = out;
                  } in
                  absurd (
                    let kept =
                      Mem-any (is_ready_link s.evidence_rows ids n.id) c s.children c_in
                        (Source-link s.evidence_rows ids n.id c child source) in
                    cc (kept, lost))
              | inl inside ↦
                  let found =
                    found_rows-Mem s evidence e.row ids
                      (first_row-of_uuid e.row s.evidence_rows unique e.among) inside in
                  let clear = reject_bare_claim-eq-ok s ids e.row (
                    All-Mem (λ row. reject_bare_claim s ids row ≡ ok tt) e.row
                      (found_rows s evidence ids) passed found) in
                  let (table, at_n) = child-parts n.id c child in
                  let from_e : is_child (node_evidence, by_evidence) e.row.id c ≡ true =
                    rw (table, e.linked) refl in
                  let met : (is_id n.id c.node_id && is_bare s ids n) ≡ true =
                    rw (at_n, ready, held, lost) refl in
                  absurd (
                    let bare =
                      Mem-any (λ (x : Owner). is_id x.id c.node_id && is_bare s ids x) n s.node_rows
                        among met in
                    cc (bare, bare_claim-none s ids e.row.id c s.children clear c_in from_e))
            ]
      ]

  -- Evidence that the request does not name is not one of its rows.
  not-found :
      (e : Owner) (rows : List Owner)
      → Memᴰ e s.evidence_rows
      → is_one_of ids e.uuid ≡ false
      → All (Requested s evidence ids) rows
      → All (λ (row : Owner). (e.id == row.id) ≡ false) rows
  not-found e [] m out h = tt
  not-found e (row ∷ rows) m out ((at_id, named), rest) = (
    elim (Bool-cases (e.id == row.id)) [
      | inr f ↦ f
      | inl f ↦
          let ids_eq : e.id ≡ row.id = ground (arith, f) in
          let at_e : row_by_id s evidence row.id ≡ some e =
            subst (λ i. row_by_id s evidence i ≡ some e) ids_eq
              (first_row-of_id e s.evidence_rows un m) in
          let same : some row ≡ some e = sym at_id ∙ at_e in
          absurd (
            let inside =
              ap (λ (o : Option Owner). elim o [ some x ↦ is_one_of ids x.uuid | none ↦ false ])
                same in
            cc (inside, named, out))
    ],
    not-found e rows m out rest,
  )

module _ (scoped : List String) (s : Store) (request : DeleteRequest) (d : Deletion)
    (r : Store × List DeleteIntent) (admitted : Admits scoped s request d r) where
  evidence-Backed :
      request.kind ≡ evidence
      → UniqueIds s.evidence_rows
      → UniqueUuids s.evidence_rows
      → Backed s
      → Backed (set_all_pending evidence d (found_rows s evidence request.ids) s)
  evidence-Backed kind un unique backed =
      let rows = found_rows s evidence request.ids in
      let s' = set_all_pending evidence d rows s in
      let passed =
        subst
          (λ k. All (λ row. reject_unbacked k s request row ≡ ok tt) (found_rows s k request.ids))
          kind
          (validate_rows-All scoped s request (found_rows s request.kind request.ids)
            admitted.valid) in
      let asked = found_rows-Requested s evidence request.ids un in
      let links = set_pending-children evidence d rows s in
      let same = set_pending-nodes evidence d rows s (λ e. absurd (cc e)) in
      subst (All (BackedBy s'.evidence_rows s'.children)) (sym same) (
        All-intro s.node_rows (λ n among ready held.
          let kept =
            kept-links s request.ids un n unique passed among ready held (
              All-Mem (BackedBy s.evidence_rows s.children) n s.node_rows backed among ready
                held) in
          let (c, c_in, link) =
            any-Mem (is_ready_link s.evidence_rows request.ids n.id) s.children kept in
          let (child, e) = link-Source s.evidence_rows request.ids n.id c link in
          let moved =
            set_evidence-Mem d e.row rows s
              (not-found s request.ids un e.row rows e.among e.outside asked) e.among in
          let source : Source s'.evidence_rows [] c = record {
            row = e.row;
            among = moved;
            linked = e.linked;
            ready = e.ready;
            outside = refl;
          } in
          subst (λ cs. any (is_ready_link s'.evidence_rows [] n.id) cs ≡ true) (sym links)
            (Mem-any (is_ready_link s'.evidence_rows [] n.id) c s.children c_in
              (Source-link s'.evidence_rows [] n.id c child source))))

  marked-Backed :
      (kind : Kind)
      → request.kind ≡ kind
      → UniqueIds s.evidence_rows
      → UniqueUuids s.evidence_rows
      → Backed s
      → Backed (set_all_pending kind d (found_rows s kind request.ids) s)
  marked-Backed evidence same un unique backed = evidence-Backed same un unique backed
  marked-Backed nodes same un unique backed =
      let rows = found_rows s nodes request.ids in
      rw
        (
          set_pending-evidence nodes d rows s (λ e. absurd (cc e)),
          set_pending-children nodes d rows s,
        )
        (mark_all-BackedBy s.evidence_rows s.children d rows s backed)
  marked-Backed relations same un unique backed =
      let rows = found_rows s relations request.ids in
      subst
        (λ os.
          All (BackedBy os (set_all_pending relations d rows s).children)
            (set_all_pending relations d rows s).node_rows)
        (sym (set_pending-evidence relations d rows s (λ e. absurd (cc e))))
        (subst
          (λ cs. All (BackedBy s.evidence_rows cs) (set_all_pending relations d rows s).node_rows)
          (sym (set_pending-children relations d rows s))
          (subst (All (BackedBy s.evidence_rows s.children))
            (sym (set_pending-nodes relations d rows s (λ e. absurd (cc e)))) backed))

-- Admitting a delete request keeps every claim backed. Take a store in which each ready node that holds
-- a claim has a link to ready evidence, and whose evidence has unique ids and uuids. In the store that
-- an admitted request leaves, of whatever kind, each node that is still ready and holds a claim has
-- such a link still.
pub prepare-Backed :
    (scoped : List String) (s : Store) (request : DeleteRequest) (job : String) (now : ℕ)
    (r : Store × List DeleteIntent)
    → UniqueIds s.evidence_rows
    → UniqueUuids s.evidence_rows
    → Backed s
    → prepare scoped s request job now ≡ ok r
    → Backed r.0
prepare-Backed scoped s request job now r un unique backed h =
    let d = intent_deletion request job now in
    let a = prepare-Admits scoped s request job now r h in
    subst Backed (sym a.marks)
      (marked-Backed scoped s request d r a request.kind refl un unique backed)
