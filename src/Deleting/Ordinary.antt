-- ===== src/Deleting/Ordinary.antt =====
-- About `delete_step` and `finalize_evidence` of storage/jobs.py on a job that is no rejection.
use mathlib.Core.Path.{subst}
use justpen_knowledgebase_mc.Base.{
  String, ◌≡◌, refl, sym, ◌∙◌, ap, Bool, true, false, ◌&&◌, inl, inr, Option, none, some, List, [],
  ◌∷◌, ℤ, pos, ◌+ℤ◌, arith, Result, ok, conflict, or_raise, ok-injective, Bool-cases, Result-cases,
  any, &&-true,
}
use justpen_knowledgebase_mc.Json.{Value, Fields, get, field, end, int, str}
use justpen_knowledgebase_mc.Graph.Tables.{Kind, evidence, Owner, Store, rows_of, row_by_id}
use justpen_knowledgebase_mc.Graph.Deletions.{DeleteIntent, is_intent_of, step}
use justpen_knowledgebase_mc.Graph.Sweeps.{IsKeyed}
use justpen_knowledgebase_mc.Jobs.Table.{completed, Db}
use justpen_knowledgebase_mc.Jobs.Lease.{Claim, fence, finish, release}
use justpen_knowledgebase_mc.Jobs.Admin.{is_truthy}
use justpen_knowledgebase_mc.Deleting.{
  Tables, tables, Clock, File, int_of, rows_field, ids_field, intents_from, intents, payload_kind,
  payload_ids, await_files, end_delete, step_intent, is_empty, step_first, plain_step, delete_step,
}
use justpen_knowledgebase_mc.Deleting.Rejecting.{HasState, release-HasState}
use justpen_knowledgebase_mc.Deleting.Completing.{
  take-nil, take-one, one_state, intents_from-none, last-none,
}

-- A job that is completed has no intent left on the rows of the kind.
abbrev Spent : Kind → String → Tables → Type 0
Spent kind job t =
    HasState completed job t.db → any (is_intent_of job) (rows_of kind t.store) ≡ false

module _ (show : ℤ → String) (c : Claim) (clock : Clock) where
  queued-Spent :
      (kind : Kind) (db db' : Db) (progress : Fields) (s : Store)
      → release db c progress (clock 1) (clock 2) ≡ ok db'
      → Spent kind c.job_id (tables db' s)
  queued-Spent kind db db' progress s h over =
      absurd
        (one_state c.job_id db' over (release-HasState db c progress (clock 1) (clock 2) db' h))

  await_files-Spent :
      (kind : Kind) (db : Db) (s : Store) (i : DeleteIntent) (rows : ℤ) (r : Tables × Option File)
      → await_files show db s c i rows clock ≡ ok r
      → Spent kind c.job_id r.0
  unfolding await_files
  await_files-Spent kind db s i rows r h =
      elim (Result-cases (row_of (row_by_id s evidence i.owner_id))) [
        | inl (x, e) ↦ absurd (ground (arith, e, h))
        | inr (o, e) ↦ elim (Result-cases (release db c fields (clock 1) (clock 2))) [
          | inl (x, f) ↦ absurd (ground (arith, e, f, h))
          | inr (db', f) ↦
              let same : (tables db' s, some (i.uuid, o.sha256)) ≡ r =
                ok-injective (sym (rw (e, f) refl) ∙ h) in
              subst (λ (x : Tables × Option File). Spent kind c.job_id x.0) same
                (queued-Spent kind db db' fields s f)
        ]
      ]
    where
      fields : Fields
      fields = field "rows_deleted" (int rows) (field "files_pending" (str i.uuid) end)

      row_of : Option Owner → Result Owner
      row_of o = or_raise o (conflict "delete owner disappeared")

  end_delete-Spent :
      (kind : Kind) (db : Db) (s : Store) (over : Bool) (rows : ℤ) (r : Tables × Option File)
      → (over ≡ true → any (is_intent_of c.job_id) (rows_of kind s) ≡ false)
      → end_delete show db s c over rows clock ≡ ok r
      → Spent kind c.job_id r.0
  unfolding end_delete
  end_delete-Spent kind db s true rows r clear h =
      elim (Result-cases (payload_ids show c.payload)) [
        | inl (x, e) ↦ absurd (ground (arith, e, h))
        | inr (ids, e) ↦
            let result =
              field "deleted_ids" ids (field "progress" (Value.obj (rows_field rows)) end) in
            elim (Result-cases (finish db c completed result (clock 1) (clock 2))) [
              | inl (x, f) ↦ absurd (ground (arith, e, f, h))
              | inr (db', f) ↦
                  let same : (tables db' s, none) ≡ r = ok-injective (sym (rw (e, f) refl) ∙ h) in
                  subst (λ (x : Tables × Option File). Spent kind c.job_id x.0) same
                    (λ _. clear refl)
            ]
      ]
  end_delete-Spent kind db s false rows r clear h =
      elim (Result-cases (release db c (rows_field rows) (clock 1) (clock 2))) [
        | inl (x, f) ↦ absurd (ground (arith, f, h))
        | inr (db', f) ↦
            let same : (tables db' s, none) ≡ r = ok-injective (sym (rw f refl) ∙ h) in
            subst (λ (x : Tables × Option File). Spent kind c.job_id x.0) same
              (queued-Spent kind db db' (rows_field rows) s f)
      ]

  step_intent-Spent :
      (kind : Kind) (t : Tables) (i : DeleteIntent) (last : Bool) (r : Tables × Option File)
      → IsKeyed t.store
      → (last ≡ true → intents_from show kind c.job_id (rows_of kind t.store) ≡ i ∷ [])
      → step_intent show t c i last clock ≡ ok r
      → Spent kind c.job_id r.0
  unfolding step_intent
  step_intent-Spent kind t i last r keyed only h = elim (Result-cases (step t.store i 100)) [
    | inl (x, e) ↦ absurd (ground (arith, e, h))
    | inr ((s, st), e) ↦ elim (Result-cases (int_of (get "rows_deleted" c.progress))) [
      | inl (x, f) ↦ absurd (ground (arith, e, f, h))
      | inr (before, f) ↦
          let rows = before +ℤ pos st.rows_deleted in
          elim (Bool-cases st.files_pending) [
            | inl g ↦ await_files-Spent kind t.db s i rows r (sym (rw (e, f, g) refl) ∙ h)
            | inr g ↦
                end_delete-Spent kind t.db s (last && st.done) rows r
                  (λ over.
                    let (is_last, is_done) = &&-true last st.done over in
                    last-none show kind c.job_id t.store i (s, st) keyed (only is_last) e is_done)
                  (sym (rw (e, f, g) refl) ∙ h)
          ]
    ]
  ]

  is_empty-nil : (is : List DeleteIntent) → is_empty show is ≡ true → is ≡ []
  is_empty-nil [] h = refl
  is_empty-nil (i ∷ is) h = absurd (cc h)

  step_first-Spent :
      (kind : Kind) (t : Tables) (is : List DeleteIntent) (r : Tables × Option File)
      → IsKeyed t.store
      → intents show kind t.store c.job_id ≡ is
      → step_first show t c is clock ≡ ok r
      → Spent kind c.job_id r.0
  unfolding step_first
  step_first-Spent kind t [] r keyed e h =
      let clear =
        intents_from-none show kind c.job_id (rows_of kind t.store)
          (take-nil 99 (intents_from show kind c.job_id (rows_of kind t.store)) e) in
      elim (Result-cases (payload_ids show c.payload)) [
        | inl (x, f) ↦ absurd (ground (arith, f, h))
        | inr (ids, f) ↦
            elim (Result-cases (finish t.db c completed (ids_field ids) (clock 1) (clock 2))) [
              | inl (x, g) ↦ absurd (ground (arith, f, g, h))
              | inr (db', g) ↦
                  let same : (tables db' t.store, none) ≡ r =
                    ok-injective (sym (rw (f, g) refl) ∙ h) in
                  subst (λ (x : Tables × Option File). Spent kind c.job_id x.0) same (λ _. clear)
            ]
      ]
  step_first-Spent kind t (i ∷ rest) r keyed e h =
      step_intent-Spent kind t i (is_empty show rest) r keyed
        (λ last.
          take-one 98 i (intents_from show kind c.job_id (rows_of kind t.store))
            (e ∙ ap (λ xs. i ∷ xs) (is_empty-nil rest last)))
        h

  plain_step-Spent :
      (kind : Kind) (t : Tables) (r : Tables × Option File)
      → IsKeyed t.store
      → payload_kind show c.payload ≡ ok kind
      → plain_step show t c clock ≡ ok r
      → Spent kind c.job_id r.0
  unfolding plain_step
  plain_step-Spent kind t r keyed named h =
      step_first-Spent kind t (intents show kind t.store c.job_id) r keyed refl
        (sym (rw named refl) ∙ h)

  -- When a step completes a delete job that is no rejection, over graph tables whose ids are unique, no
  -- row of its kind has an intent of it any more.
  pub delete_step-completes :
      (types : List String) (kind : Kind) (t : Tables) (r : Tables × Option File)
      → IsKeyed t.store
      → is_truthy (get "rejection" c.payload) ≡ false
      → payload_kind show c.payload ≡ ok kind
      → delete_step show types t c clock ≡ ok r
      → HasState completed c.job_id r.0.db
      → any (is_intent_of c.job_id) (rows_of kind r.0.store) ≡ false
  unfolding delete_step
  delete_step-completes types kind t r keyed plain named h =
      elim (Result-cases (fence t.db c (clock 0))) [
        | inl (x, e) ↦ absurd (ground (arith, e, h))
        | inr (row, e) ↦ plain_step-Spent kind t r keyed named (sym (rw (e, plain) refl) ∙ h)
      ]
