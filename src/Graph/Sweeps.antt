-- ===== src/Graph/Sweeps.antt =====
-- About `_delete_incident` of storage/deletions.py: its rounds, its progress and its end.
use mathlib.Core.Path.{subst}
use justpen_knowledgebase_mc.Base.{
  ℕ, ◌+◌, ◌-◌, ◌≤◌, ◌<◌, String, ◌≡◌, refl, sym, ◌∙◌, ap, true, ◌&&◌, not, List, arith, some,
  Option-cases, Bool-cases, inl, inr, ◌==◌, ltb, any, length,
}
use justpen_knowledgebase_mc.Graph.Tables.{Kind, relations, Owner, Store, first_row, is_id}
use justpen_knowledgebase_mc.Graph.Deletions.{
  delete_children, has_children, incident, Sweep, delete_relation, incident_round,
}
use justpen_knowledgebase_mc.Graph.Rows.{
  Sub, UniqueIds, delete_owner-Sub, delete_owner-UniqueIds, length-delete_owner,
  length-delete_owner-lt, length-delete_owner-once, first_row-any,
}
use justpen_knowledgebase_mc.Graph.Children.{delete_children-Deletes, delete_children-NoneLeft}

-- The number of rows of the store.
abbrev pub size : Store → ℕ
size s = length s.node_rows + length s.relation_rows + length s.evidence_rows + length s.children

-- The ids of each table of owners are unique.
pub record IsKeyed (s : Store) : Type 0 where
  pub keyed_nodes : UniqueIds s.node_rows
  pub keyed_relations : UniqueIds s.relation_rows
  pub keyed_evidence : UniqueIds s.evidence_rows

-- Nodes and evidence stay, relations and children only become fewer, the ids stay unique, and every
-- row that goes is counted once, within the budget.
pub record Sweeps (budget : ℕ) (w w' : Sweep) : Type 0 where
  pub nodes_stay : w'.store.node_rows ≡ w.store.node_rows
  pub evidence_stays : w'.store.evidence_rows ≡ w.store.evidence_rows
  pub sub_relations : Sub w'.store.relation_rows w.store.relation_rows
  pub sub_children : Sub w'.store.children w.store.children
  pub keyed : UniqueIds w'.store.relation_rows
  pub exact : size w'.store + w'.deleted ≡ size w.store + w.deleted
  pub grows : w.deleted ≤ w'.deleted
  pub within : w'.deleted ≤ budget

pub stay-Sweeps :
    (budget : ℕ) (w : Sweep)
    → UniqueIds w.store.relation_rows
    → w.deleted ≤ budget
    → Sweeps budget w w
stay-Sweeps budget w un le = record {
  nodes_stay = refl;
  evidence_stays = refl;
  sub_relations = λ q h. h;
  sub_children = λ q h. h;
  keyed = un;
  exact = refl;
  grows = omega arith;
  within = le;
}

pub trans-Sweeps :
    (budget : ℕ) (u v w : Sweep) → Sweeps budget u v → Sweeps budget v w → Sweeps budget u w
trans-Sweeps budget u v w f g = record {
  nodes_stay = g.nodes_stay ∙ f.nodes_stay;
  evidence_stays = g.evidence_stays ∙ f.evidence_stays;
  sub_relations = λ q h. g.sub_relations q (f.sub_relations q h);
  sub_children = λ q h. g.sub_children q (f.sub_children q h);
  keyed = g.keyed;
  exact = g.exact ∙ f.exact;
  grows = omega (arith, f.grows, g.grows);
  within = g.within;
}

-- The children of a row go from the sweep.
pub children-Sweeps :
    (budget owner : ℕ) (kind : Kind) (w : Sweep)
    → UniqueIds w.store.relation_rows
    → w.deleted ≤ budget
    → Sweeps budget w (record w {
      store = (delete_children w.store kind owner (budget - w.deleted)).0;
      deleted = w.deleted + (delete_children w.store kind owner (budget - w.deleted)).1;
    })
children-Sweeps budget owner kind w un le =
    let d = delete_children-Deletes w.store kind owner (budget - w.deleted) in
    let s' = (delete_children w.store kind owner (budget - w.deleted)).0 in
    record {
      nodes_stay = d.nodes_stay;
      evidence_stays = d.evidence_stays;
      sub_relations = subst (λ rs. Sub rs w.store.relation_rows) (sym d.relations_stay) (λ q h. h);
      sub_children = d.sub;
      keyed = subst UniqueIds (sym d.relations_stay) un;
      exact = omega (
        arith,
        d.exact,
        ap (λ (l : List Owner). length l) d.nodes_stay,
        ap (λ (l : List Owner). length l) d.relations_stay,
        ap (λ (l : List Owner). length l) d.evidence_stays,
      );
      grows = omega arith;
      within = omega (arith, d.within, le);
    }

relation-Sweeps :
    (r : Owner) (budget : ℕ) (job : String) (w : Sweep)
    → UniqueIds w.store.relation_rows
    → w.deleted ≤ budget
    → Sweeps budget w (delete_relation r budget job w)
unfolding delete_relation
relation-Sweeps r budget job w un le =
    elim (Bool-cases (ltb w.deleted budget && not (has_children w.store relations r.id))) [
      | inr e ↦ rw e (stay-Sweeps budget w un le)
      | inl e ↦
          let less = length-delete_owner r.id w.store.relation_rows in
          let once = length-delete_owner-once r.id w.store.relation_rows un in
          let room : w.deleted < budget = ground (arith, e) in
          rw e (record {
            nodes_stay = refl;
            evidence_stays = refl;
            sub_relations = delete_owner-Sub r.id w.store.relation_rows;
            sub_children = λ q h. h;
            keyed = delete_owner-UniqueIds r.id w.store.relation_rows un;
            exact = omega (arith, less);
            grows = omega arith;
            within = omega (arith, room, once, less);
          })
    ]

abbrev at_children : Owner → ℕ → Sweep → Sweep
at_children r budget w = record w {
  store = (delete_children w.store relations r.id (budget - w.deleted)).0;
  deleted = w.deleted + (delete_children w.store relations r.id (budget - w.deleted)).1;
}

pub round-Sweeps :
    (r : Owner) (budget : ℕ) (job : String) (w : Sweep)
    → UniqueIds w.store.relation_rows
    → w.deleted ≤ budget
    → Sweeps budget w (incident_round r budget job w)
unfolding incident_round
round-Sweeps r budget job w un le =
    let f = children-Sweeps budget r.id relations w un le in
    trans-Sweeps budget w (at_children r budget w) _ f
      (relation-Sweeps r budget job (at_children r budget w) f.keyed f.within)

pub incident-any :
    (s : Store) (owner : ℕ) (r : Owner)
    → incident s owner ≡ some r
    → any (λ (o : Owner). o.id == r.id) s.relation_rows ≡ true
unfolding incident
incident-any s owner r h =
    elim (Option-cases (first_row (λ (o : Owner). is_id owner o.source_id) s.relation_rows)) [
      | inl e ↦
          let found : first_row (λ (o : Owner). is_id owner o.target_id) s.relation_rows ≡ some r =
            ground (arith, e) in
          (first_row-any _ s.relation_rows r found).1 (λ (o : Owner). o.id == r.id) (ground arith)
      | inr (x, e) ↦
          let found : first_row (λ (o : Owner). is_id owner o.source_id) s.relation_rows ≡ some r =
            ground (arith, e) in
          (first_row-any _ s.relation_rows r found).1 (λ (o : Owner). o.id == r.id) (ground arith)
    ]

-- A round on a relation that is there deletes a row, if the budget has room.
pub round-progress :
    (r : Owner) (budget : ℕ) (job : String) (w : Sweep)
    → any (λ (o : Owner). o.id == r.id) w.store.relation_rows ≡ true
    → w.deleted < budget
    → w.deleted < (incident_round r budget job w).deleted
unfolding incident_round delete_relation
round-progress r budget job w there lt =
    let (s, n) = delete_children w.store relations r.id (budget - w.deleted) in
    let d = delete_children-Deletes w.store relations r.id (budget - w.deleted) in
    let still =
      subst (λ rs. any (λ (o : Owner). o.id == r.id) rs ≡ true) (sym d.relations_stay) there in
    let fewer = length-delete_owner-lt r.id s.relation_rows still in
    elim (Bool-cases (ltb (w.deleted + n) budget)) [
      | inr e ↦ ground (arith, e)
      | inl e ↦
          let clear =
            delete_children-NoneLeft w.store relations r.id (budget - w.deleted)
              (ground (arith, e)) in
          ground (arith, e, clear, fewer)
    ]
