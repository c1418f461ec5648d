-- ===== src/Graph/Children.antt =====
-- About `_delete_children` and `_has_children` of storage/deletions.py.
use mathlib.Core.Path.{subst}
use justpen_knowledgebase_mc.Base.{
  ℕ, ◌+◌, ◌-◌, ◌≤◌, ◌<◌, ◌≡◌, refl, sym, ◌∙◌, false, List, [], ◌∷◌, arith, Bool-cases, inl, inr,
  leb, any, length,
}
use justpen_knowledgebase_mc.Graph.Tables.{Kind, Table, Column, Child, is_child, Store}
use justpen_knowledgebase_mc.Graph.Deletions.{
  Progress, delete_from, delete_tables, delete_children, has_children, child_tables,
}
use justpen_knowledgebase_mc.Graph.Rows.{Sub, delete_some-Sub, length-delete_some, delete_some-all}

-- The rows of the three owner tables stay, those of the others only become fewer, and every row that
-- goes is counted once, within the budget.
pub record Deletes (budget : ℕ) (p q : Progress) : Type 0 where
  pub nodes_stay : q.0.node_rows ≡ p.0.node_rows
  pub relations_stay : q.0.relation_rows ≡ p.0.relation_rows
  pub evidence_stays : q.0.evidence_rows ≡ p.0.evidence_rows
  pub sub : Sub q.0.children p.0.children
  pub exact : length q.0.children + q.1 ≡ length p.0.children + p.1
  pub grows : p.1 ≤ q.1
  pub within : q.1 ≤ budget

delete_from-Deletes :
    (t : Table × Column) (owner budget : ℕ) (p : Progress)
    → p.1 ≤ budget
    → Deletes budget p (delete_from t owner budget p)
delete_from-Deletes t owner budget (s, d) le =
    let (less, more) = length-delete_some (budget - d) (is_child t owner) s.children in
    record {
      nodes_stay = refl;
      relations_stay = refl;
      evidence_stays = refl;
      sub = delete_some-Sub (budget - d) (is_child t owner) s.children;
      exact = omega (arith, less);
      grows = omega arith;
      within = omega (arith, le, less, more);
    }

stay-Deletes : (budget : ℕ) (p : Progress) → p.1 ≤ budget → Deletes budget p p
stay-Deletes budget p le = record {
  nodes_stay = refl;
  relations_stay = refl;
  evidence_stays = refl;
  sub = λ q h. h;
  exact = refl;
  grows = omega arith;
  within = le;
}

pub trans-Deletes :
    (budget : ℕ) (p q r : Progress) → Deletes budget p q → Deletes budget q r → Deletes budget p r
trans-Deletes budget p q r f g = record {
  nodes_stay = g.nodes_stay ∙ f.nodes_stay;
  relations_stay = g.relations_stay ∙ f.relations_stay;
  evidence_stays = g.evidence_stays ∙ f.evidence_stays;
  sub = λ t h. g.sub t (f.sub t h);
  exact = g.exact ∙ f.exact;
  grows = omega (arith, f.grows, g.grows);
  within = g.within;
}

delete_tables-cons :
    (t : Table × Column) (ts : List (Table × Column)) (owner budget : ℕ) (p : Progress)
    → leb budget p.1 ≡ false
    → delete_tables ts owner budget (delete_from t owner budget p)
      ≡ delete_tables (t ∷ ts) owner budget p
unfolding delete_tables
delete_tables-cons t ts owner budget (s, d) e = rw e refl

pub delete_tables-Deletes :
    (ts : List (Table × Column)) (owner budget : ℕ) (p : Progress)
    → p.1 ≤ budget
    → Deletes budget p (delete_tables ts owner budget p)
unfolding delete_tables
delete_tables-Deletes [] owner budget p le = stay-Deletes budget p le
delete_tables-Deletes (t ∷ ts) owner budget p le = elim (Bool-cases (leb budget p.1)) [
  | inl e ↦ rw e (stay-Deletes budget p le)
  | inr e ↦
      let q = delete_from t owner budget p in
      let f = delete_from-Deletes t owner budget p le in
      subst (Deletes budget p) (delete_tables-cons t ts owner budget p e) (
        trans-Deletes budget p q (delete_tables ts owner budget q) f
          (delete_tables-Deletes ts owner budget q f.within))
]

abbrev NoneLeft : List (Table × Column) → ℕ → List Child → Type 0
NoneLeft ts owner cs = any (λ t. any (is_child t owner) cs) ts ≡ false

NoneLeft-Sub :
    (ts : List (Table × Column)) (owner : ℕ) (xs ys : List Child)
    → Sub xs ys
    → NoneLeft ts owner ys
    → NoneLeft ts owner xs
NoneLeft-Sub [] owner xs ys sub h = refl
NoneLeft-Sub (t ∷ ts) owner xs ys sub h =
    ground (arith, sub (is_child t owner), NoneLeft-Sub ts owner xs ys sub)

delete_tables-NoneLeft :
    (ts : List (Table × Column)) (owner budget : ℕ) (p : Progress)
    → p.1 ≤ budget
    → (delete_tables ts owner budget p).1 < budget
    → NoneLeft ts owner (delete_tables ts owner budget p).0.children
unfolding delete_tables
delete_tables-NoneLeft [] owner budget (s, d) le lt = refl
delete_tables-NoneLeft (t ∷ ts) owner budget p le lt = elim (Bool-cases (leb budget p.1)) [
  | inl e ↦ absurd (let h : p.1 < budget = rw e at lt in ground (arith, h))
  | inr e ↦
      let q = delete_from t owner budget p in
      let f = delete_from-Deletes t owner budget p le in
      let g = delete_tables-Deletes ts owner budget q f.within in
      let same = delete_tables-cons t ts owner budget p e in
      let lt' : (delete_tables ts owner budget q).1 < budget =
        subst (λ (r : Progress). r.1 < budget) (sym same) lt in
      let (less, more) = length-delete_some (budget - p.1) (is_child t owner) p.0.children in
      let here : any (is_child t owner) q.0.children ≡ false =
        delete_some-all (budget - p.1) (is_child t owner) p.0.children
          (omega (arith, lt', g.grows, less, more, le)) in
      let there = g.sub (is_child t owner) here in
      let later = delete_tables-NoneLeft ts owner budget q f.within lt' in
      subst (λ (r : Progress). NoneLeft (t ∷ ts) owner r.0.children) same
        (ground (arith, there, later))
]

module _ (s : Store) (kind : Kind) (owner budget : ℕ) where
  pub delete_children-Deletes : Deletes budget (s, 0) (delete_children s kind owner budget)
  unfolding delete_children
  delete_children-Deletes =
      delete_tables-Deletes (child_tables kind) owner budget (s, 0) (omega arith)

  -- Children are left only when the budget is spent.
  pub delete_children-NoneLeft :
      (delete_children s kind owner budget).1 < budget
      → has_children (delete_children s kind owner budget).0 kind owner ≡ false
  unfolding delete_children has_children
  delete_children-NoneLeft =
      delete_tables-NoneLeft (child_tables kind) owner budget (s, 0) (omega arith)
