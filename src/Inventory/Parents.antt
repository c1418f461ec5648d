-- ===== src/Inventory/Parents.antt =====
-- The parent of a scoped node in storage/inventory.py, against a description of its own.
use mathlib.Core.Path.{subst}
use mathlib.Core.List.Memᴰ
use justpen_knowledgebase_mc.Base.{
  ℕ, String, ◌≡◌, ◌≢◌, refl, sym, ◌∙◌, ap, Bool, true, ◌&&◌, none, some, List, [], ◌∷◌, ◌++◌, arith,
  ok, Option-cases, Bool-cases, inl, inr, ◌==◌, str_eq, eq_iff, Memᴰ,
}
use justpen_knowledgebase_mc.Inventory.{
  Node, Relation, Graph, ScopeRelations, node_with, first_parent, relation_of, scope_parent,
}

-- The scope relation types have one entry for a node type, and the nodes one row for an id.
pub record IsKeyed (scopes : ScopeRelations) (graph : Graph) : Type 0 where
  pub one_type : (t r r' : String) → Memᴰ (t, r) scopes → Memᴰ (t, r') scopes → r ≡ r'
  pub one_node : (n n' : Node) → Memᴰ n graph.nodes → Memᴰ n' graph.nodes → n.id ≡ n'.id → n ≡ n'

-- A relation of the type that runs from the node `p` to the node with the id.
pub record Joins (graph : Graph) (target : ℕ) (type : String) (r : Relation) (p : Node)
    : Type 0 where
  pub ends : r.target_id ≡ target
  pub typed : r.type ≡ type
  pub stored : Memᴰ p graph.nodes
  pub starts : p.id ≡ r.source_id

-- The node `p` is the source of the first relation of the type that runs to the id from a stored node.
pub record FirstOf (graph : Graph) (rs : List Relation) (target : ℕ) (type : String) (p : Node)
    : Type 0 where
  pub before : List Relation
  pub relation : Relation
  pub after : List Relation
  pub ordered : rs ≡ before ++ relation ∷ after
  pub joined : Joins graph target type relation p
  pub first : (r : Relation) (q : Node) → Memᴰ r before → ¬ Joins graph target type r q

-- The parent is over the first relation of the node's own scope relation type.
pub record IsParent (scopes : ScopeRelations) (graph : Graph) (n p : Node) : Type 0 where
  pub type : String
  pub scoped : Memᴰ (n.type, type) scopes
  pub found : FirstOf graph graph.relations n.id type p

module _ (graph : Graph) where
  node_with-Mem :
      (i : ℕ) (ns : List Node) (n : Node) → node_with i ns ≡ some n → Memᴰ n ns × (n.id ≡ i)
  unfolding node_with
  node_with-Mem i [] n h = absurd (cc h)
  node_with-Mem i (m ∷ ms) n h = elim (Bool-cases (m.id == i)) [
    | inl e ↦
        let same : m ≡ n = ground (arith, e, h) in
        (Memᴰ.head (sym same), ground (arith, e, ap (λ (x : Node). x.id) same))
    | inr e ↦ let (k, q) = node_with-Mem i ms n (ground (arith, e, h)) in (Memᴰ.tail k, q)
  ]

  node_with-none :
      (i : ℕ) (ns : List Node) (n : Node) → node_with i ns ≡ none → Memᴰ n ns → n.id ≢ i
  unfolding node_with
  node_with-none i [] n h m e = Memᴰ.not-nil m
  node_with-none i (k ∷ ks) n h m e = elim (Memᴰ.cases_cons m) [
    | inl same ↦ ground (arith, h, e, ap (λ (x : Node). x.id) same)
    | inr m' ↦ node_with-none i ks n (ground (arith, h, e)) m' e
  ]

  module _ (target : ℕ) (type : String) where
    abbrev fits : Relation → Bool
    fits r = r.target_id == target && str_eq r.type type

    Joins-fits : (r : Relation) (p : Node) → Joins graph target type r p → fits r ≡ true
    Joins-fits r p j = ground (arith, j.ends, (eq_iff r.type type).1 j.typed)

    fits-Joins :
        (r : Relation) (p : Node)
        → fits r ≡ true
        → node_with r.source_id graph.nodes ≡ some p
        → Joins graph target type r p
    fits-Joins r p e h =
        let (m, q) = node_with-Mem r.source_id graph.nodes p h in
        record {
          ends = ground (arith, e);
          typed = (eq_iff r.type type).0 (ground (arith, e));
          stored = m;
          starts = q;
        }

    -- A relation that joins no node is passed over.
    later :
        (r : Relation) (rs : List Relation) (p : Node)
        → ((q : Node) → ¬ Joins graph target type r q)
        → FirstOf graph rs target type p
        → FirstOf graph (r ∷ rs) target type p
    later r rs p out f = record {
      before = r ∷ f.before;
      relation = f.relation;
      after = f.after;
      ordered = ap (λ xs. r ∷ xs) f.ordered;
      joined = f.joined;
      first = λ x q m j. elim (Memᴰ.cases_cons m) [
        | inl same ↦ out q (subst (λ y. Joins graph target type y q) same j)
        | inr m' ↦ f.first x q m' j
      ];
    }

    first_parent-FirstOf :
        (rs : List Relation) (p : Node)
        → first_parent graph.nodes rs target type ≡ some p
        → FirstOf graph rs target type p
    unfolding first_parent
    first_parent-FirstOf [] p h = absurd (cc h)
    first_parent-FirstOf (r ∷ rs) p h = elim (Bool-cases (fits r)) [
      | inr e ↦
          later r rs p (λ q j. cc (Joins-fits r q j, e))
            (first_parent-FirstOf rs p (sym (rw e refl) ∙ h))
      | inl e ↦ elim (Option-cases (node_with r.source_id graph.nodes)) [
        | inl n ↦
            later r rs p (λ q j. node_with-none r.source_id graph.nodes q n j.stored j.starts)
              (first_parent-FirstOf rs p (sym (rw (e, n) refl) ∙ h))
        | inr (n, q) ↦ record {
          before = [];
          relation = r;
          after = rs;
          ordered = refl;
          joined = fits-Joins r p e (q ∙ (sym (rw (e, q) refl) ∙ h));
          first = λ x y m j. Memᴰ.not-nil m;
        }
      ]
    ]

    FirstOf-first_parent :
        (before after : List Relation) (r : Relation) (p : Node)
        → ((n n' : Node) → Memᴰ n graph.nodes → Memᴰ n' graph.nodes → n.id ≡ n'.id → n ≡ n')
        → Joins graph target type r p
        → ((x : Relation) (q : Node) → Memᴰ x before → ¬ Joins graph target type x q)
        → first_parent graph.nodes (before ++ r ∷ after) target type ≡ some p
    unfolding first_parent
    FirstOf-first_parent [] after r p one j first =
        elim (Option-cases (node_with r.source_id graph.nodes)) [
          | inl n ↦ absurd (node_with-none r.source_id graph.nodes p n j.stored j.starts)
          | inr (n, q) ↦
              let (m, e) = node_with-Mem r.source_id graph.nodes n q in
              rw (Joins-fits r p j, q) (ap some (one n p m j.stored (e ∙ sym j.starts)))
        ]
    FirstOf-first_parent (b ∷ bs) after r p one j first =
        let rest = FirstOf-first_parent bs after r p one j (λ x q m. first x q (Memᴰ.tail m)) in
        elim (Bool-cases (fits b)) [
          | inr e ↦ rw e rest
          | inl e ↦ elim (Option-cases (node_with b.source_id graph.nodes)) [
            | inl n ↦ rw (e, n) rest
            | inr (n, q) ↦ absurd (first b n (Memᴰ.head refl) (fits-Joins b n e q))
          ]
        ]

relation_of-Mem :
    (scopes : ScopeRelations) (t r : String) → relation_of scopes t ≡ some r → Memᴰ (t, r) scopes
unfolding relation_of
relation_of-Mem [] t r h = absurd (cc h)
relation_of-Mem ((k, x) ∷ rs) t r h = elim (Bool-cases (str_eq k t)) [
  | inl e ↦
      let key : k ≡ t = (eq_iff k t).0 e in
      let value : x ≡ r = ground (arith, e, h) in
      Memᴰ.head (sym (ap (λ y. (y, x)) key ∙ ap (λ y. (t, y)) value))
  | inr e ↦ Memᴰ.tail (relation_of-Mem rs t r (sym (rw e refl) ∙ h))
]

relation_of-none :
    (scopes : ScopeRelations) (t r : String) → relation_of scopes t ≡ none → ¬ Memᴰ (t, r) scopes
unfolding relation_of
relation_of-none [] t r h m = Memᴰ.not-nil m
relation_of-none ((k, x) ∷ rs) t r h m = elim (Bool-cases (str_eq k t)) [
  | inl e ↦ ground (arith, e, h)
  | inr e ↦ elim (Memᴰ.cases_cons m) [
    | inl same ↦ cc (e, (eq_iff k t).1 (sym (ap (λ (y : String × String). y.0) same)))
    | inr m' ↦ relation_of-none rs t r (ground (arith, e, h)) m'
  ]
]

pub scope_parent-IsParent :
    (scopes : ScopeRelations) (graph : Graph) (n p : Node)
    → scope_parent scopes graph n ≡ ok p
    → IsParent scopes graph n p
unfolding scope_parent
scope_parent-IsParent scopes graph n p h = elim (Option-cases (relation_of scopes n.type)) [
  | inl e ↦ absurd (ground (arith, e, h))
  | inr (t, e) ↦ elim (Option-cases (first_parent graph.nodes graph.relations n.id t)) [
    | inl q ↦ absurd (ground (arith, e, q, h))
    | inr (x, q) ↦ record {
      type = t;
      scoped = relation_of-Mem scopes n.type t e;
      found = first_parent-FirstOf graph n.id t graph.relations p (ground (arith, e, q, h));
    }
  ]
]

pub IsParent-scope_parent :
    (scopes : ScopeRelations) (graph : Graph) (n p : Node)
    → IsKeyed scopes graph
    → IsParent scopes graph n p
    → scope_parent scopes graph n ≡ ok p
unfolding scope_parent
IsParent-scope_parent scopes graph n p keyed i =
    let f = i.found in
    let first =
      subst (λ rs. first_parent graph.nodes rs n.id i.type ≡ some p) (sym f.ordered)
        (FirstOf-first_parent graph n.id i.type f.before f.after f.relation p keyed.one_node
          f.joined f.first) in
    elim (Option-cases (relation_of scopes n.type)) [
      | inl e ↦ absurd (relation_of-none scopes n.type i.type e i.scoped)
      | inr (t, e) ↦
          let same = keyed.one_type n.type t i.type (relation_of-Mem scopes n.type t e) i.scoped in
          rw (e, same, first) refl
    ]
