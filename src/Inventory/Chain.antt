-- ===== src/Inventory/Chain.antt =====
-- The walk up the scope chain in storage/inventory.py, against a description of its own.
use justpen_knowledgebase_mc.Base.{
  ℕ, zero, suc, ◌≤◌, String, ◌≡◌, refl, ◌∙◌, ap, false, Option, some, List, [], ◌∷◌, ◌++◌, arith,
  ok, Result-cases, Bool-cases, inl, inr, ◌↔◌, str_eq, eq_iff, ◌≢◌,
}
use justpen_knowledgebase_mc.Inventory.{
  Node, Graph, EffectiveState, ScopeRelations, effective_authorization, depth, scope_parent,
  state_of, walk, effective_state,
}
use justpen_knowledgebase_mc.Inventory.Parents.{
  IsKeyed, IsParent, scope_parent-IsParent, IsParent-scope_parent,
}
use justpen_knowledgebase_mc.Inventory.Authorizing.{Gives, effective-Gives, Gives-effective}

module _ (scopes : ScopeRelations) (graph : Graph) (root_id : String) where
  -- From the node up to the first ancestor that has the root's uuid, with the number of links and the
  -- overrides below the root.
  pub data Chain : Node → ℕ → List (Option String) → Node → Type 0 where
    last :
        {n p : Node}
        → IsParent scopes graph n p
        → p.uuid ≡ root_id
        → Chain n 1 (n.authorization_override ∷ []) p
    link :
        {n p root : Node} {k : ℕ} {os : List (Option String)}
        → IsParent scopes graph n p
        → p.uuid ≢ root_id
        → Chain p k os root
        → Chain n (suc k) (n.authorization_override ∷ os) root

  -- The chain of a walk, with the overrides seen before it.
  record Walks (n : ℕ) (seen : List (Option String)) (current : Node) (s : EffectiveState)
      : Type 0 where
    links : ℕ
    overrides : List (Option String)
    root : Node
    chain : Chain current links overrides root
    bounded : links ≤ n
    state_is : s ≡ state_of scopes graph root (seen ++ overrides) root_id

  append_assoc : (xs ys zs : List (Option String)) → (xs ++ ys) ++ zs ≡ xs ++ (ys ++ zs)
  append_assoc [] ys zs = refl
  append_assoc (x ∷ xs) ys zs = ap (λ l. x ∷ l) (append_assoc xs ys zs)

  walk-Walks :
      (n : ℕ) (seen : List (Option String)) (current : Node) (s : EffectiveState)
      → walk scopes graph n root_id seen current ≡ ok s
      → Walks n seen current s
  unfolding walk
  walk-Walks zero seen current s h = cc
  walk-Walks (suc n) seen current s h = elim (Result-cases (scope_parent scopes graph current)) [
    | inl (x, q) ↦ absurd (ground arith)
    | inr (p, q) ↦ elim (Bool-cases (str_eq p.uuid root_id)) [
      | inl e ↦ record {
        links = 1;
        overrides = current.authorization_override ∷ [];
        root = p;
        chain = last (scope_parent-IsParent scopes graph current p q) ((eq_iff p.uuid root_id).0 e);
        bounded = omega arith;
        state_is = ground arith;
      }
      | inr e ↦
          let w = walk-Walks n (seen ++ current.authorization_override ∷ []) p s (ground arith) in
          record {
            links = suc w.links;
            overrides = current.authorization_override ∷ w.overrides;
            root = w.root;
            chain =
                link (scope_parent-IsParent scopes graph current p q)
                  (λ same. cc (e, (eq_iff p.uuid root_id).1 same)) w.chain;
            bounded = omega (arith, w.bounded);
            state_is =
                rw (← append_assoc seen (current.authorization_override ∷ []) w.overrides)
                  w.state_is;
          }
    ]
  ]

  differs : (p : Node) → p.uuid ≢ root_id → str_eq p.uuid root_id ≡ false
  differs p out = elim (Bool-cases (str_eq p.uuid root_id)) [
    | inl e ↦ absurd (out ((eq_iff p.uuid root_id).0 e))
    | inr e ↦ e
  ]

  Chain-walk :
      (n k : ℕ) (seen os : List (Option String)) (current root : Node)
      → IsKeyed scopes graph
      → Chain current k os root
      → k ≤ n
      → walk scopes graph n root_id seen current
        ≡ ok (state_of scopes graph root (seen ++ os) root_id)
  unfolding walk
  Chain-walk zero k seen os current root keyed (last q e) b = absurd (omega (arith, b))
  Chain-walk zero k seen os current root keyed (link q e c) b = absurd (omega (arith, b))
  Chain-walk (suc n) k seen os current root keyed (last {p = p} q e) b =
      rw (IsParent-scope_parent scopes graph current p keyed q, (eq_iff p.uuid root_id).1 e) refl
  Chain-walk (suc n) (suc k) seen (_ ∷ os) current root keyed (link {p = p} q e c) b =
      rw (IsParent-scope_parent scopes graph current p keyed q, differs p e)
        (Chain-walk n k (seen ++ current.authorization_override ∷ []) os p root keyed c
            (omega (arith, b))
          ∙ ap (λ l. ok (state_of scopes graph root l root_id))
              (append_assoc seen (current.authorization_override ∷ []) os))

  -- What a scoped node inherits: a chain of at most so many links, the ownership of its root, the
  -- authorization that the root and the chain give, and the root's uuid.
  pub record Walked (n : ℕ) (row : Node) (s : EffectiveState) : Type 0 where
    pub links : ℕ
    pub overrides : List (Option String)
    pub root : Node
    pub authorization : String
    pub chain : Chain row links overrides root
    pub bounded : links ≤ n
    pub owned : s.ownership ≡ root.ownership
    pub given : s.authorization ≡ some authorization
    pub gives : Gives root overrides authorization
    pub rooted : s.root_id ≡ some root_id

  -- A chain has the override of its first node, so it gives what the code computes.
  chain-Gives :
      {n root : Node} {k : ℕ} {os : List (Option String)}
      → Chain n k os root
      → Gives root os (effective_authorization root os)
  chain-Gives {n} {root} (last q e) = effective-Gives root n.authorization_override []
  chain-Gives {n} {root} (link {os = os} q e c) = effective-Gives root n.authorization_override os

  chain-effective :
      {n root : Node} {k : ℕ} {os : List (Option String)}
      → Chain n k os root
      → (a : String) → Gives root os a
      → a ≡ effective_authorization root os
  chain-effective {n} {root} (last q e) a g = Gives-effective root n.authorization_override [] a g
  chain-effective {n} {root} (link {os = os} q e c) a g =
      Gives-effective root n.authorization_override os a g

  Walks-Walked : (n : ℕ) (row : Node) (s : EffectiveState) → Walks n [] row s → Walked n row s
  Walks-Walked n row s w = record {
    links = w.links;
    overrides = w.overrides;
    root = w.root;
    authorization = effective_authorization w.root w.overrides;
    chain = w.chain;
    bounded = w.bounded;
    owned = ap (λ (x : EffectiveState). x.ownership) w.state_is;
    given = ap (λ (x : EffectiveState). x.authorization) w.state_is;
    gives = chain-Gives w.chain;
    rooted = ap (λ (x : EffectiveState). x.root_id) w.state_is;
  }

  Walked-walk :
      (n : ℕ) (row : Node) (s : EffectiveState)
      → IsKeyed scopes graph
      → Walked n row s
      → walk scopes graph n root_id [] row ≡ ok s
  Walked-walk n row s keyed w =
      let same : state_of scopes graph w.root w.overrides root_id ≡ s =
        cc (w.owned, w.given, w.rooted, chain-effective w.chain w.authorization w.gives) in
      Chain-walk n w.links [] w.overrides row w.root keyed w.chain w.bounded ∙ ap ok same

-- Over nodes with unique ids and scope relation types with unique keys, a node that names a state root
-- has the effective state s exactly when a chain of parents leads, in at most as many links as there
-- are scope relation types, from the node to the first one with the root's uuid, and s has that root's
-- ownership and the authorization that the root and the overrides on the chain give. The parent of a
-- node is the source of the first relation of the scope relation type of the node that runs to it from
-- a stored node.
pub effective_state-Walked :
    (scopes : ScopeRelations) (graph : Graph) (row : Node) (root_id : String) (s : EffectiveState)
    → IsKeyed scopes graph
    → row.state_root_uuid ≡ some root_id
    → (effective_state scopes graph row ≡ ok (some s))
      ↔ Walked scopes graph root_id (depth scopes) row s
unfolding effective_state
effective_state-Walked scopes graph row root_id s keyed h = (
  λ e. elim (Result-cases (walk scopes graph (depth scopes) root_id [] row)) [
    | inl (x, q) ↦ absurd (ground arith)
    | inr (t, q) ↦
        Walks-Walked scopes graph root_id (depth scopes) row s
          (walk-Walks scopes graph root_id (depth scopes) [] row s (ground arith))
  ],
  λ w.
      let found = Walked-walk scopes graph root_id (depth scopes) row s keyed w in
      ground (arith, found),
)
