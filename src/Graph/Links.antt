-- ===== src/Graph/Links.antt =====
-- About the links of storage/graph_sql.py that count for a claim.
use justpen_knowledgebase_mc.Base.{
  ℕ, String, ◌≡◌, refl, true, false, ◌&&◌, not, List, arith, Memᴰ, Bool-cases, inl, inr, any,
  any-Mem, Mem-any, &&-true,
}
use justpen_knowledgebase_mc.Graph.Tables.{
  Owner, Child, same_table, node_evidence, by_node, is_child, is_id,
}
use justpen_knowledgebase_mc.Graph.Blocking.{is_one_of, is_ready, is_ready_link}

-- The evidence of a link that counts.
pub record Source (sources : List Owner) (ids : List String) (c : Child) : Type 0 where
  pub row : Owner
  pub among : Memᴰ row sources
  pub linked : is_id row.id c.evidence_id ≡ true
  pub ready : is_ready row ≡ true
  pub outside : is_one_of ids row.uuid ≡ false

pub link-Source :
    (sources : List Owner) (ids : List String) (node : ℕ) (c : Child)
    → is_ready_link sources ids node c ≡ true
    → (is_child (node_evidence, by_node) node c ≡ true) × Source sources ids c
link-Source sources ids node c h =
    let test =
      λ (e : Owner). is_id e.id c.evidence_id && (is_ready e && not (is_one_of ids e.uuid)) in
    let (child, some_source) =
      &&-true (is_child (node_evidence, by_node) node c) (any test sources) h in
    let (e, among, t) = any-Mem test sources some_source in
    let (linked, rest) =
      &&-true (is_id e.id c.evidence_id) (is_ready e && not (is_one_of ids e.uuid)) t in
    let (ready, out) = &&-true (is_ready e) (not (is_one_of ids e.uuid)) rest in
    (
      child,
      record {
        row = e;
        among = among;
        linked = linked;
        ready = ready;
        outside = elim (Bool-cases (is_one_of ids e.uuid)) [
          | inl f ↦ absurd (ground (arith, f, out))
          | inr f ↦ f
        ];
      },
    )

pub Source-link :
    (sources : List Owner) (ids : List String) (node : ℕ) (c : Child)
    → is_child (node_evidence, by_node) node c ≡ true
    → Source sources ids c
    → is_ready_link sources ids node c ≡ true
Source-link sources ids node c child e =
    let test =
      λ (x : Owner). is_id x.id c.evidence_id && (is_ready x && not (is_one_of ids x.uuid)) in
    let met : test e.row ≡ true = rw (e.linked, e.ready, e.outside) refl in
    rw (child, Mem-any test e.row sources e.among met) refl

-- The table of a link, and the node that it names.
pub child-parts :
    (node : ℕ) (c : Child)
    → is_child (node_evidence, by_node) node c ≡ true
    → (same_table c.table node_evidence ≡ true) × (is_id node c.node_id ≡ true)
child-parts node c h = &&-true (same_table c.table node_evidence) (is_id node c.node_id) h
