-- ===== src/Jobs/Rotation.antt =====
-- About the calls of storage/job_retention.py beside the end of a purge: the choice of the next job,
-- the acknowledgements, and the input that is let go.
use justpen_knowledgebase_mc.Base.{
  ℕ, suc, ◌≤◌, ap, String, ◌≡◌, refl, sym, true, false, ◌&&◌, not, Option, none, some, List, [],
  ◌∷◌, arith, ok, leb, Memᴰ, Result-cases, Option-cases, Bool-cases, inl, inr,
}
use mathlib.Core.Path.{subst}
use mathlib.Core.List.Memᴰ
use justpen_knowledgebase_mc.Jobs.Table.{Job, Db, find, job_row, update}
use justpen_knowledgebase_mc.Jobs.Invariant.{IsJobOk, IsConsistent, All-find, same-IsConsistent}
use justpen_knowledgebase_mc.Jobs.Rows.{KeepsUuid, uuid-find}
use justpen_knowledgebase_mc.Jobs.Purge.{
  disowned, without_first, next_file, next_blob, acknowledge, acknowledge_blob,
}
use justpen_knowledgebase_mc.Json.{get, has}
use justpen_knowledgebase_mc.Jobs.Ownership.{row_metadata}
use justpen_knowledgebase_mc.Jobs.Retention.{ownership}
use justpen_knowledgebase_mc.Jobs.Upkeep.{
  is_token, earlier, is_marked_after, next_job, forgotten, forget_row, forget_clean_input,
}

-- A job whose purge is pending, with a greater id than the position.
pub record IsPurgeAfter (after : ℕ) (r : Job) : Type 0 where
  pub pending : r.purge_pending ≡ true
  pub later : suc after ≤ r.id

-- An answer is the id and the uuid of the pending job with the least id after the position, and no
-- answer is for a table without one.
pub data IsNext (after : ℕ) (rs : List Job) : Option (ℕ × String) → Type 0 where
  least :
      (r : Job)
      → Memᴰ r rs
      → IsPurgeAfter after r
      → ((x : Job) → Memᴰ x rs → IsPurgeAfter after x → r.id ≤ x.id)
      → IsNext after rs (some (r.id, r.uuid))
  nothing : ((x : Job) → Memᴰ x rs → ¬ IsPurgeAfter after x) → IsNext after rs none

IsPurgeAfter-is : (after : ℕ) (r : Job) → IsPurgeAfter after r → is_marked_after after r ≡ true
IsPurgeAfter-is after r m = ground (arith, m.pending, m.later)

is-IsPurgeAfter : (after : ℕ) (r : Job) → is_marked_after after r ≡ true → IsPurgeAfter after r
is-IsPurgeAfter after r e = record { pending = ground (arith, e); later = ground (arith, e) }

-- A row that is not asked for changes no answer.
skip :
    (after : ℕ) (r : Job) (rs : List Job) {o : Option (ℕ × String)}
    → is_marked_after after r ≡ false
    → IsNext after rs o
    → IsNext after (r ∷ rs) o
skip after r rs e (least x m p low) = least x (Memᴰ.tail m) p (λ y n q. elim (Memᴰ.cases_cons n) [
  | inl same ↦ absurd (cc (IsPurgeAfter-is after y q, ap (is_marked_after after) same, e))
  | inr n' ↦ low y n' q
])
skip after r rs e (nothing none_there) = nothing (λ y n q. elim (Memᴰ.cases_cons n) [
  | inl same ↦ cc (IsPurgeAfter-is after y q, ap (is_marked_after after) same, e)
  | inr n' ↦ none_there y n' q
])

-- A row that is asked for is the answer, or the earlier one is.
take_earlier :
    (after : ℕ) (r : Job) (rs : List Job) {o : Option (ℕ × String)}
    → IsPurgeAfter after r
    → IsNext after rs o
    → IsNext after (r ∷ rs) (earlier r o)
take_earlier after r rs p (nothing none_there) = least r (Memᴰ.head refl) p (λ y n q.
    elim (Memᴰ.cases_cons n) [
      | inl same ↦ omega (arith, ap (λ (x : Job). x.id) same)
      | inr n' ↦ absurd (none_there y n' q)
    ])
take_earlier after r rs p (least x m px low) = elim (Bool-cases (leb r.id x.id)) [
  | inl e ↦
      let le : r.id ≤ x.id = ground (arith, e) in
      subst (IsNext after (r ∷ rs)) (rw e refl) (
        least r (Memᴰ.head refl) p (λ y n q. elim (Memᴰ.cases_cons n) [
          | inl same ↦ omega (arith, ap (λ (z : Job). z.id) same)
          | inr n' ↦ omega (arith, le, low y n' q)
        ]))
  | inr e ↦
      let le : x.id ≤ r.id = ground (arith, e) in
      subst (IsNext after (r ∷ rs)) (rw e refl) (
        least x (Memᴰ.tail m) px (λ y n q. elim (Memᴰ.cases_cons n) [
          | inl same ↦ omega (arith, le, ap (λ (z : Job). z.id) same)
          | inr n' ↦ low y n' q
        ]))
]

-- `next_job` answers the id and the uuid of a job of the table whose purge is pending and whose id is
-- the least of those after the position, and answers none exactly where there is no such job.
pub next_job-least : (after : ℕ) (rs : List Job) → IsNext after rs (next_job after rs)
unfolding next_job
next_job-least after [] = nothing (λ x m. absurd (Memᴰ.not-nil m))
next_job-least after (r ∷ rs) = elim (Bool-cases (is_marked_after after r)) [
  | inr e ↦ subst (IsNext after (r ∷ rs)) (rw e refl) (skip after r rs e (next_job-least after rs))
  | inl e ↦
      subst (IsNext after (r ∷ rs)) (rw e refl)
        (take_earlier after r rs (is-IsPurgeAfter after r e) (next_job-least after rs))
]

module _ (uuid : String → Option String) (db : Db) (inv : IsConsistent db) where
  -- A write to the columns that no counter and no lease depends on.
  same_row :
      (u : String) (f : Job → Job) (row : Job)
      → KeepsUuid f
      → find u db.jobs ≡ some row
      → IsJobOk (f row)
      → (f row).state ≡ row.state
      → IsConsistent (record db { jobs = update u f db.jobs })
  same_row u f row keeps found good same =
      same-IsConsistent db u f row keeps inv found good (ground arith) (ground arith)

  good : (u : String) (row : Job) → find u db.jobs ≡ some row → IsJobOk row
  good u row found = All-find IsJobOk u db.jobs row inv.rows found

  pub acknowledge-IsConsistent :
      (job_id token : String) (now : ℕ) (db' : Db)
      → acknowledge uuid db job_id token now ≡ ok db'
      → IsConsistent db'
  unfolding acknowledge
  acknowledge-IsConsistent job_id token now db' h = elim (Option-cases (find job_id db.jobs)) [
    | inl e ↦ absurd (unfold next_file job_row in ground arith)
    | inr (row, e) ↦ elim (Result-cases (next_file uuid db job_id now)) [
      | inl (x, q) ↦ absurd (ground arith)
      | inr (head, q) ↦
          let g = good job_id row e in
          subst IsConsistent (ground arith) (
            same_row job_id (λ r. record r { purge_tokens = without_first r.purge_tokens }) row
              (λ r. refl) e (record { leased = g.leased; expiring = g.expiring; ended = g.ended })
              refl)
    ]
  ]

  pub acknowledge_blob-IsConsistent :
      (job_id digest : String) (now : ℕ) (db' : Db)
      → acknowledge_blob uuid db job_id digest now ≡ ok db'
      → IsConsistent db'
  unfolding acknowledge_blob
  acknowledge_blob-IsConsistent job_id digest now db' h =
      elim (Option-cases (find job_id db.jobs)) [
        | inl e ↦ absurd (unfold next_blob job_row in ground arith)
        | inr (row, e) ↦ elim (Result-cases (next_blob uuid db job_id now)) [
          | inl (x, q) ↦ absurd (ground arith)
          | inr (blob, q) ↦
              let g = good job_id row e in
              subst IsConsistent (ground arith) (
                same_row job_id disowned row (λ r. refl) e
                  (record { leased = g.leased; expiring = g.expiring; ended = g.ended }) refl)
        ]
      ]

  forget_row-IsConsistent :
      (row : Job) (token : String) (db' : Db)
      → find row.uuid db.jobs ≡ some row
      → forget_row uuid db row token ≡ ok db'
      → IsConsistent db'
  unfolding forget_row
  forget_row-IsConsistent row token db' found h = elim (Result-cases (ownership uuid row)) [
    | inl (x, q) ↦ absurd (ground arith)
    | inr ((payload, progress), q) ↦ elim (Result-cases (row_metadata row)) [
      | inl (x, q') ↦ absurd (ground arith)
      | inr ((_, _, result), q') ↦
          elim (Bool-cases (
            not row.purge_pending
            && (is_token (get "input_token" payload) token && has "evidence_id" result))) [
              | inr b ↦ subst IsConsistent (ground arith) inv
              | inl b ↦
                  let g = good row.uuid row found in
                  subst IsConsistent (ground arith) (
                    same_row row.uuid forgotten row (λ r. refl) found
                      (record { leased = g.leased; expiring = g.expiring; ended = g.ended }) refl)
            ]
    ]
  ]

  pub forget_clean_input-IsConsistent :
      (job_id token : String) (db' : Db)
      → forget_clean_input uuid db job_id token ≡ ok db'
      → IsConsistent db'
  unfolding forget_clean_input job_row
  forget_clean_input-IsConsistent job_id token db' h = elim (Option-cases (find job_id db.jobs)) [
    | inl e ↦ subst IsConsistent (ground arith) inv
    | inr (row, e) ↦
        forget_row-IsConsistent row token db'
          (subst (λ k. find k db.jobs ≡ some row) (sym (uuid-find job_id db.jobs row e)) e)
          (ground arith)
  ]
