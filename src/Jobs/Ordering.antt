-- ===== src/Jobs/Ordering.antt =====
-- About the rows that `CANDIDATES_SQL` of storage/job_retention.py selects, and their order.
use mathlib.Core.Path.{subst}
use justpen_knowledgebase_mc.Base.{
  String, ◌≡◌, refl, true, false, none, some, List, [], ◌∷◌, ◌++◌, arith, Option-cases, Bool-cases,
  inl, inr, str_eq, eq_iff, All, All-map, All-append, All-take, All-select, select,
}
use justpen_knowledgebase_mc.Jobs.Table.{
  State, completed, failed, cancelled, is_terminal, Job, Db, find,
}
use justpen_knowledgebase_mc.Jobs.Rows.{
  Unique, Unique-select, Unique-take, All-find_self, uuid-find,
}
use justpen_knowledgebase_mc.Jobs.Invariant.{All-find}
use justpen_knowledgebase_mc.Jobs.Page.{
  Position, position, before, same_state, is_after, insert_by_end, by_end, arm, candidates,
}

All-insert_by_end :
    (P : Job → Type 0) (r : Job) (xs : List Job) → P r → All P xs → All P (insert_by_end r xs)
unfolding insert_by_end
All-insert_by_end P r [] h hs = (h, tt)
All-insert_by_end P r (x ∷ xs) h hs = elim (Bool-cases (before (position x) (position r))) [
  | inl e ↦ rw e (hs.0, All-insert_by_end P r xs h hs.1)
  | inr e ↦ rw e (h, hs)
]

All-by_end : (P : Job → Type 0) (xs : List Job) → All P xs → All P (by_end xs)
unfolding by_end
All-by_end P [] hs = tt
All-by_end P (x ∷ xs) hs = All-insert_by_end P x (by_end xs) hs.0 (All-by_end P xs hs.1)

find-insert_by_end-none :
    (u : String) (r : Job) (xs : List Job)
    → str_eq r.uuid u ≡ false
    → find u xs ≡ none
    → find u (insert_by_end r xs) ≡ none
unfolding find insert_by_end
find-insert_by_end-none u r [] e h = ground arith
find-insert_by_end-none u r (x ∷ xs) e h = ground (arith, find-insert_by_end-none u r xs)

insert_by_end-Unique :
    (r : Job) (xs : List Job) → find r.uuid xs ≡ none → Unique xs → Unique (insert_by_end r xs)
unfolding find insert_by_end
insert_by_end-Unique r [] h un = (refl, tt)
insert_by_end-Unique r (x ∷ xs) h un = elim (Bool-cases (before (position x) (position r))) [
  | inl e ↦ rw e (
    find-insert_by_end-none x.uuid r xs (ground (arith, eq_iff x.uuid r.uuid, eq_iff r.uuid x.uuid))
        un.0,
    insert_by_end-Unique r xs (ground arith) un.1,
  )
  | inr e ↦ rw e (h, un)
]

find-by_end-none : (u : String) (xs : List Job) → find u xs ≡ none → find u (by_end xs) ≡ none
unfolding find by_end
find-by_end-none u [] h = refl
find-by_end-none u (x ∷ xs) h =
    find-insert_by_end-none u x (by_end xs) (ground arith) (find-by_end-none u xs (ground arith))

by_end-Unique : (xs : List Job) → Unique xs → Unique (by_end xs)
unfolding by_end
by_end-Unique [] un = tt
by_end-Unique (x ∷ xs) un =
    insert_by_end-Unique x (by_end xs) (find-by_end-none x.uuid xs un.0) (by_end-Unique xs un.1)

find-append-none :
    (u : String) (xs ys : List Job) → find u xs ≡ none → find u ys ≡ none → find u (xs ++ ys) ≡ none
unfolding find
find-append-none u [] ys hx hy = hy
find-append-none u (x ∷ xs) ys hx hy = ground (arith, find-append-none u xs ys)

append-Unique :
    (xs ys : List Job)
    → Unique xs
    → Unique ys
    → All (λ r. find r.uuid ys ≡ none) xs
    → Unique (xs ++ ys)
append-Unique [] ys ux uy apart = uy
append-Unique (x ∷ xs) ys ux uy apart =
    (find-append-none x.uuid xs ys ux.0 apart.0, append-Unique xs ys ux.1 uy apart.1)

-- A row of the table that has ended.
abbrev pub HasEnded : Db → Job → Type 0
HasEnded db r = (find r.uuid db.jobs ≡ some r) × (is_terminal r.state ≡ true)

module _ (db : Db) (un : Unique db.jobs) (cursor : Position) where
  -- A row of the table in the state.
  abbrev InState : State → Job → Type 0
  InState s r = (find r.uuid db.jobs ≡ some r) × (same_state r.state s ≡ true)

  arm-InState : (s : State) → All (InState s) (arm db cursor s)
  arm-InState s = All-take (InState s) 100 (by_end (select (is_after s cursor) db.jobs)) (
      All-by_end (InState s) (select (is_after s cursor) db.jobs) (
        All-map _ (InState s) (λ r h. (h.1, ground (arith, h.0)))
          (select (is_after s cursor) db.jobs)
          (All-select (λ r. find r.uuid db.jobs ≡ some r) (is_after s cursor) db.jobs
            (All-find_self db.jobs un))))

  arm-Unique : (s : State) → Unique (arm db cursor s)
  arm-Unique s = Unique-take 100 _ (by_end-Unique _ (Unique-select _ db.jobs un))

  arm-apart :
      (s t : State)
      → ((x : State) → same_state x s ≡ true → same_state x t ≡ false)
      → (r : Job) → InState s r
      → find r.uuid (arm db cursor t) ≡ none
  arm-apart s t differ r (found, is_s) = elim (Option-cases (find r.uuid (arm db cursor t))) [
    | inl e ↦ e
    | inr (y, e) ↦
        let (found_y, is_t) = All-find (InState t) r.uuid (arm db cursor t) y (arm-InState t) e in
        let q : find r.uuid db.jobs ≡ some y =
          subst (λ u. find u db.jobs ≡ some y) (uuid-find r.uuid (arm db cursor t) y e) found_y in
        absurd (ground (arith, found, q, is_t, differ r.state is_s))
  ]

  pub candidates-Unique : Unique (candidates db cursor)
  unfolding candidates
  candidates-Unique = Unique-take 100 _ (
      by_end-Unique _ (
        append-Unique (arm db cursor completed) (arm db cursor failed ++ arm db cursor cancelled)
          (arm-Unique completed)
          (append-Unique (arm db cursor failed) (arm db cursor cancelled) (arm-Unique failed)
            (arm-Unique cancelled)
            (All-map _ _ (arm-apart failed cancelled (λ x h. ground arith)) (arm db cursor failed)
              (arm-InState failed)))
          (All-map (InState completed) _
            (λ r h.
              find-append-none r.uuid (arm db cursor failed) (arm db cursor cancelled)
                (arm-apart completed failed (λ x h. ground arith) r h)
                (arm-apart completed cancelled (λ x h. ground arith) r h))
            (arm db cursor completed) (arm-InState completed))))

  arm-HasEnded : (s : State) → is_terminal s ≡ true → All (HasEnded db) (arm db cursor s)
  arm-HasEnded s t =
      All-map (InState s) (HasEnded db) (λ r h. (h.0, ground (arith, h.1))) (arm db cursor s)
        (arm-InState s)

  pub candidates-HasEnded : All (HasEnded db) (candidates db cursor)
  unfolding candidates
  candidates-HasEnded = All-take (HasEnded db) 100 _ (
      All-by_end (HasEnded db) _ (
        All-append (HasEnded db) (arm db cursor completed) _ (arm-HasEnded completed refl) (
          All-append (HasEnded db) (arm db cursor failed) _ (arm-HasEnded failed refl)
            (arm-HasEnded cancelled refl))))
