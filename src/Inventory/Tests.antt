-- ===== src/Inventory/Tests.antt =====
-- Scoped nodes under an allowlisted root, and the theorem applied to one.
use justpen_knowledgebase_mc.Base.{
  String, ◌≡◌, refl, ap, ◌↔◌, true, some, none, [], ◌∷◌, ok, inl, inr, Memᴰ,
}
use mathlib.Core.List.Memᴰ
use justpen_knowledgebase_mc.Inventory.Parents.{IsKeyed}
use justpen_knowledgebase_mc.Inventory.{
  Node, Graph, EffectiveState, ScopeRelations, effective_authorization, node_with, first_parent,
  relation_of, depth, scope_parent, walk, effective_state,
}
use justpen_knowledgebase_mc.Inventory.Chain.{Walked, effective_state-Walked}

abbrev root : Node
root = record {
  id = 1;
  uuid = "r";
  type = "host";
  ownership = some "owned";
  authorization = some "in_scope";
  allowlist_scoped = true;
  authorization_override = none;
  state_root_uuid = none;
}

abbrev child : Node
child = record root { id = 2; uuid = "c"; type = "service"; state_root_uuid = some "r" }

abbrev page : Node
page = record root {
  id = 3;
  uuid = "p";
  type = "endpoint";
  authorization_override = some "in_scope";
  state_root_uuid = some "r";
}

-- A relation of another type and one from a node that is gone come before the parent of the page.
abbrev graph : Graph
graph = record {
  nodes = root ∷ child ∷ page ∷ [];
  relations =
      record { source_id = 1; target_id = 2; type = "EXPOSES" }
      ∷ record { source_id = 1; target_id = 3; type = "EXPOSES" }
      ∷ record { source_id = 9; target_id = 3; type = "SERVES" }
      ∷ record { source_id = 2; target_id = 3; type = "SERVES" }
      ∷ [];
}

abbrev scopes : ScopeRelations
scopes = ("service", "EXPOSES") ∷ ("endpoint", "SERVES") ∷ []

abbrev widened_state : EffectiveState
widened_state = record {
  ownership = some "owned";
  authorization = some "in_scope";
  root_id = some "r";
}

page_is_widened : effective_state scopes graph page ≡ ok (some widened_state)
unfolding effective_state walk scope_parent first_parent relation_of node_with depth
    effective_authorization
page_is_widened = refl

one_type : (t r r' : String) → Memᴰ (t, r) scopes → Memᴰ (t, r') scopes → r ≡ r'
one_type t r r' m m' = elim (Memᴰ.cases_cons m) [
  | inl e ↦ elim (Memᴰ.cases_cons m') [
    | inl e' ↦ cc (e, e')
    | inr n' ↦ elim (Memᴰ.cases_cons n') [
      | inl e' ↦ cc (e, e')
      | inr n'' ↦ absurd (Memᴰ.not-nil n'')
    ]
  ]
  | inr n ↦ elim (Memᴰ.cases_cons n) [
    | inl e ↦ elim (Memᴰ.cases_cons m') [
      | inl e' ↦ cc (e, e')
      | inr n' ↦ elim (Memᴰ.cases_cons n') [
        | inl e' ↦ cc (e, e')
        | inr n'' ↦ absurd (Memᴰ.not-nil n'')
      ]
    ]
    | inr n'' ↦ absurd (Memᴰ.not-nil n'')
  ]
]

node_at : (n : Node) → Memᴰ n graph.nodes → node_with n.id graph.nodes ≡ some n
unfolding node_with
node_at n m = elim (Memᴰ.cases_cons m) [
  | inl e ↦ rw e refl
  | inr m1 ↦ elim (Memᴰ.cases_cons m1) [
    | inl e ↦ rw e refl
    | inr m2 ↦ elim (Memᴰ.cases_cons m2) [ inl e ↦ rw e refl | inr m3 ↦ absurd (Memᴰ.not-nil m3) ]
  ]
]

graph-IsKeyed : IsKeyed scopes graph
graph-IsKeyed = record {
  one_type = one_type;
  one_node = λ n n' m m' e. cc (node_at n m, ap (λ i. node_with i graph.nodes) e, node_at n' m');
}

effective_state-Walked_example :
    (effective_state scopes graph page ≡ ok (some widened_state))
    ↔ Walked scopes graph "r" (depth scopes) page widened_state
effective_state-Walked_example =
    effective_state-Walked scopes graph page "r" widened_state graph-IsKeyed refl
