-- ===== src/Jobs/Locator.antt =====
-- About `checkpoint_ownership` of storage/job_ownership.py and the locator of a published blob.
use mathlib.Core.Path.{subst}
use justpen_knowledgebase_mc.Base.{
  ℕ, String, ◌≡◌, refl, sym, ◌∙◌, true, false, Option, some, none, arith, ok, Result-cases,
  Option-cases, Bool, Bool-cases, Result, err, storage_io, inl, inr, str_eq, eq_iff, eq_refl,
}
use justpen_knowledgebase_mc.Json.{Value, Fields, str, get, is_strict}
use justpen_knowledgebase_mc.Json.Laws.{get-put}
use justpen_knowledgebase_mc.Jobs.Table.{Job}
use justpen_knowledgebase_mc.Jobs.Ownership.{
  ownership_object, validate_progress, progress_object, same_locator, bad_blob, row_progress,
  checkpoint_digest, carry_key, carry, checkpoint_ownership,
}
use justpen_knowledgebase_mc.Jobs.Lease.{checkpointed}

abbrev verified : String
verified = "verified_sha256"

carry_key_other :
    (key : String) (previous progress updated : Fields)
    → str_eq key verified ≡ false
    → get verified (carry_key key previous progress updated) ≡ get verified updated
unfolding carry_key
carry_key_other key previous progress updated ne = elim (Option-cases (get key previous)) [
  | inl e ↦ rw (e, carry_key)
  | inr (v, e) ↦ ground (arith, get-put key verified v updated)
]

or_else : Option Value → Option Value → Option Value
or_else none o = o
or_else (some v) o = some v

-- The locator of a carried checkpoint is its own, or else the previous one.
get-carry :
    (d : String) (previous progress : Fields)
    → get verified (carry (some d) previous progress)
      ≡ or_else (get verified progress) (get verified previous)
unfolding carry or_else
get-carry d previous progress =
    carry_key_other "stage_token" previous progress _ refl
    ∙ carry_key_other "bytes" previous progress _ refl
    ∙ own
  where
    own :
        get verified (carry_key verified previous progress progress)
        ≡ or_else (get verified progress) (get verified previous)
    own = elim (Option-cases (get verified previous)) [
      | inl e ↦ unfold carry_key in ground arith
      | inr (v, e) ↦ unfold carry_key in ground (arith, get-put verified verified v progress)
    ]

validate_progress-ok : (p u : Fields) → validate_progress p ≡ ok u → u ≡ p
unfolding validate_progress
validate_progress-ok p u h = ground arith

-- A row whose metadata agrees names its blob by its locator.
row_progress-locator :
    (r : Job) (p : Fields)
    → row_progress r ≡ ok p
    → (same_locator (get verified p) r.blob_sha256 ≡ true) × (bad_blob r.blob_sha256 ≡ false)
unfolding row_progress progress_object ownership_object validate_progress
row_progress-locator r p h = ground arith

-- The digest of a checkpoint, by the locator that it verified and by the one that it carries.
new_digest-agrees :
    (v : Option Value) (digest : Option String)
    → checkpoint_digest v none ≡ ok digest
    → (same_locator v digest ≡ true) × (bad_blob digest ≡ false)
unfolding checkpoint_digest bad_blob
new_digest-agrees none digest h = ground arith
new_digest-agrees (some (str s)) digest h = ground (arith, eq_refl s)
new_digest-agrees (some _) digest h = cc

old_digest-agrees :
    (d : String) (v w : Option Value) (digest : Option String)
    → same_locator w (some d) ≡ true
    → bad_blob (some d) ≡ false
    → checkpoint_digest v (some d) ≡ ok digest
    → (same_locator (or_else v w) digest ≡ true) × (digest ≡ some d) × (bad_blob digest ≡ false)
unfolding checkpoint_digest bad_blob or_else
old_digest-agrees d none w digest same good h = ground arith
old_digest-agrees d (some (str s)) w digest same good h = ground (arith, eq_iff d s, eq_refl s)
old_digest-agrees d (some _) w digest same good h = cc

digest-agrees :
    (current : Option String) (previous progress : Fields) (digest : Option String)
    → same_locator (get verified previous) current ≡ true
    → bad_blob current ≡ false
    → checkpoint_digest (get verified progress) current ≡ ok digest
    → (same_locator (get verified (carry current previous progress)) digest ≡ true)
      × ((d : String) → current ≡ some d → digest ≡ some d)
      × (bad_blob digest ≡ false)
digest-agrees none previous progress digest same good h =
    let (agrees, fine) = new_digest-agrees (get verified progress) digest h in
    (unfold carry in agrees, (λ d e. cc), fine)
digest-agrees (some c) previous progress digest same good h =
    let (agrees, kept, fine) =
      old_digest-agrees c (get verified progress) (get verified previous) digest same good h in
    (rw get-carry agrees, (λ d e. kept ∙ e), fine)

checkpoint_ownership-inv :
    (r : Job) (progress u : Fields) (digest : Option String)
    → checkpoint_ownership r progress ≡ ok (u, digest)
    → (previous : Fields) × (row_progress r ≡ ok previous)
      × (checkpoint_digest (get verified progress) r.blob_sha256 ≡ ok digest)
      × (validate_progress (carry r.blob_sha256 previous progress) ≡ ok u)
unfolding checkpoint_ownership
checkpoint_ownership-inv r progress u digest h = elim (Result-cases (row_progress r)) [
  | inl (e, p) ↦ absurd (ground arith)
  | inr (previous, p) ↦ (previous, p, ground arith, ground arith)
]

-- What a row with the progress reads back as.
abbrev pub read_back : Bool → Fields → Result Fields
read_back true u = ok u
read_back false u = err (storage_io "IO_ERROR: malformed job ownership metadata")

-- A checkpoint that is accepted writes metadata that agrees with itself: the row reads back as the
-- progress that was stored, unless a float of it is an infinity or NaN, and then no later read of the
-- row's metadata succeeds; and the blob that the row owned before, if any, is owned still.
pub checkpoint_ownership-agrees :
    (r : Job) (progress u : Fields) (digest : Option String) (now : ℕ)
    → checkpoint_ownership r progress ≡ ok (u, digest)
    → (row_progress (checkpointed u digest now r) ≡ read_back (is_strict u) u)
      × ((d : String) → r.blob_sha256 ≡ some d → digest ≡ some d)
unfolding row_progress progress_object ownership_object
checkpoint_ownership-agrees r progress u digest now h =
    let (previous, p, d, v) = checkpoint_ownership-inv r progress u digest h in
    let (same, good) = row_progress-locator r previous p in
    let (agrees, kept, fine) = digest-agrees r.blob_sha256 previous progress digest same good d in
    let e : u ≡ carry r.blob_sha256 previous progress =
      validate_progress-ok (carry r.blob_sha256 previous progress) u v in
    (
      elim (Bool-cases (is_strict u)) [
        | inr f ↦ rw f refl
        | inl f ↦ rw f (
            rw (rw (← e) at v) (
              rw (fine, subst (λ x. same_locator (get verified x) digest ≡ true) (sym e) agrees)
                refl))
      ],
      kept,
    )
