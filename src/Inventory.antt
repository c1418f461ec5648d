-- ===== src/Inventory.antt =====
-- storage/inventory.py: the state that a node inherits from the root of its scope chain.
pub mod Parents
pub mod Authorizing
pub mod Chain
mod Tests
use justpen_knowledgebase_mc.Base.{
  ℕ, zero, suc, String, Bool, true, false, ◌||◌, ◌&&◌, Option, none, some, List, [], ◌∷◌, ◌++◌,
  Result, ok, err, conflict, value_error, or_raise, ◌>>=◌, ◌==◌, str_eq, any, if◌then◌else◌,
}

-- The columns of `nodes` that the walk reads.
pub record Node : Type 0 where
  pub id : ℕ
  pub uuid : String
  pub type : String
  pub ownership : Option String
  pub authorization : Option String
  pub allowlist_scoped : Bool
  pub authorization_override : Option String
  pub state_root_uuid : Option String

-- A row of `relations`.
pub record Relation : Type 0 where
  pub source_id : ℕ
  pub target_id : ℕ
  pub type : String

-- `nodes`, and `relations` in ascending id.
pub record Graph : Type 0 where
  pub nodes : List Node
  pub relations : List Relation

pub record EffectiveState : Type 0 where
  pub ownership : Option String
  pub authorization : Option String
  pub root_id : Option String

-- `value in overrides`
abbrev pub holds : String → List (Option String) → Bool
holds v = any (λ o. elim o [ none ↦ false | some x ↦ str_eq x v ])

abbrev pub is_nonempty : List (Option String) → Bool
is_nonempty [] = false
is_nonempty (_ ∷ _) = true

-- `root["authorization"] == value`
abbrev pub is_authorized : String → Node → Bool
is_authorized v n = elim n.authorization [ none ↦ false | some x ↦ str_eq x v ]

-- `str(root["authorization"])`
abbrev pub text_of : Option String → String
text_of none = "None"
text_of (some t) = t

unfoldable pub effective_authorization : Node → List (Option String) → String
effective_authorization root overrides =
    if is_authorized "out_of_scope" root || holds "out_of_scope" overrides
    then "out_of_scope"
    else if is_nonempty overrides && root.allowlist_scoped
    then (if holds "in_scope" overrides then "in_scope" else "out_of_scope")
    else text_of root.authorization

unfoldable pub node_with : ℕ → List Node → Option Node
node_with i [] = none
node_with i (n ∷ ns) = if n.id == i then some n else node_with i ns

-- The join of `_SCOPE_PARENT`, with its order and its limit.
unfoldable pub first_parent : List Node → List Relation → ℕ → String → Option Node
first_parent nodes [] target type = none
first_parent nodes (r ∷ rs) target type =
    let rest = first_parent nodes rs target type in
    if r.target_id == target && str_eq r.type type
    then elim (node_with r.source_id nodes) [ none ↦ rest | some n ↦ some n ]
    else rest

-- `_SCOPE_RELATIONS`, with its keys in order
abbrev pub ScopeRelations : Type 0
ScopeRelations = List (String × String)

unfoldable pub relation_of : ScopeRelations → String → Option String
relation_of [] type = none
relation_of ((t, r) ∷ rs) type = if str_eq t type then some r else relation_of rs type

unfoldable pub depth : ScopeRelations → ℕ
depth [] = 0
depth (_ ∷ rs) = suc (depth rs)

module _ (scopes : ScopeRelations) (graph : Graph) where
  -- The parent that one round of the loop reads; a type with no scope relation is a `KeyError`.
  unfoldable pub scope_parent : Node → Result Node
  scope_parent current = do
    type ← or_raise (relation_of scopes current.type) (value_error "KeyError")
    or_raise (first_parent graph.nodes graph.relations current.id type)
        (conflict "scoped node must have exactly one parent relation")

  abbrev pub state_of : Node → List (Option String) → String → EffectiveState
  state_of root overrides root_id = record {
    ownership = root.ownership;
    authorization = some (effective_authorization root overrides);
    root_id = some root_id;
  }

  -- The rounds that are left, and the overrides so far.
  unfoldable pub walk : ℕ → String → List (Option String) → Node → Result EffectiveState
  walk zero root_id overrides current = err (conflict "scope chain does not reach its state root")
  walk (suc n) root_id overrides current = do
    let seen = overrides ++ current.authorization_override ∷ []
    parent ← scope_parent current
    (if str_eq parent.uuid root_id
        then ok (state_of parent seen root_id)
        else walk n root_id seen parent)

  unfoldable pub effective_state : Node → Result (Option EffectiveState)
  effective_state row = elim row.state_root_uuid [
    | none ↦ elim row.ownership [
      | none ↦ ok none
      | some o ↦
          ok (
            some (record { ownership = some o; authorization = row.authorization; root_id = none }))
    ]
    | some root_id ↦ do state ← walk (depth scopes) root_id [] row; ok (some state)
  ]
