-- ===== src/Jobs/Ownership.antt =====
-- storage/job_ownership.py: which published blob a job still owns, and what a checkpoint may change.
use Prim.Native.Char.{Char, code}
use justpen_knowledgebase_mc.Base.{
  ℕ, zero, suc, String, Bool, true, false, ◌||◌, ◌&&◌, not, Option, none, some, pos, Result, ok,
  err, storage_io, conflict, raise_if, ◌>>=◌, ◌>>◌, leb, str_eq, if◌then◌else◌,
}
use justpen_knowledgebase_mc.Json.{Value, Fields, null, int, str, get, put, has}
use justpen_knowledgebase_mc.Jobs.Table.{Cell, malformed, object, Job}

-- `[0-9a-f]`
abbrev pub is_hex : Char → Bool
is_hex c = (leb b'0' (code c) && leb (code c) b'9') || (leb b'a' (code c) && leb (code c) b'f')

-- `re.fullmatch("[0-9a-f]{n}", s)`
unfoldable pub hex_run : ℕ → String → Bool
hex_run zero String.[] = true
hex_run (suc n) (String.◌∷◌ c s) = is_hex c && hex_run n s
hex_run _ _ = false

unfoldable pub is_digest : String → Bool
unfolding hex_run
is_digest s = hex_run 64 s

unfoldable pub ownership_object : Cell → Result Fields
ownership_object malformed = err (storage_io "IO_ERROR: malformed job ownership metadata")
ownership_object (object fs) = ok fs

-- A strict `Annotated[int, Field(ge=0)]` of `JobProgress`, which has a default.
abbrev pub is_counter : Option Value → Bool
is_counter none = true
is_counter (some (int (pos n))) = true
is_counter _ = false

-- `"verified_sha256" in value` asks for a digest.
unfoldable pub is_locator : Option Value → Bool
unfolding is_digest
is_locator none = true
is_locator (some (str s)) = is_digest s
is_locator _ = false

unfoldable pub validate_progress : Fields → Result Fields
unfolding is_locator
validate_progress value = do
  raise_if
      (not (
        is_counter (get "bytes" value)
        && (is_counter (get "chunks" value) && is_counter (get "rows_deleted" value))))
      (storage_io "IO_ERROR: malformed job progress counters")
  raise_if (not (is_locator (get "verified_sha256" value)))
      (storage_io "IO_ERROR: malformed published blob locator")
  ok value

unfoldable pub progress_object : Cell → Result Fields
unfolding ownership_object validate_progress
progress_object raw = do value ← ownership_object raw; validate_progress value

-- `progress.get("verified_sha256") == current`
abbrev pub same_locator : Option Value → Option String → Bool
same_locator none none = true
same_locator (some null) none = true
same_locator (some (str s)) (some d) = str_eq s d
same_locator _ _ = false

-- `current is not None and` it is no digest
unfoldable pub bad_blob : Option String → Bool
unfolding is_digest
bad_blob none = false
bad_blob (some d) = not (is_digest d)

unfoldable pub row_progress : Job → Result Fields
unfolding progress_object bad_blob
row_progress row = do
  progress ← progress_object row.progress
  raise_if (bad_blob row.blob_sha256) (storage_io "IO_ERROR: malformed published blob locator")
  raise_if (not (same_locator (get "verified_sha256" progress) row.blob_sha256))
      (storage_io "IO_ERROR: job blob ownership metadata disagrees")
  ok progress

-- The payload, the progress and the result of a row.
unfoldable pub row_metadata : Job → Result (Fields × Fields × Fields)
row_metadata row = do
  payload ← ownership_object row.payload
  progress ← row_progress row
  result ← ownership_object row.result
  ok (payload, progress, result)

-- `current is not None and current != digest`
abbrev pub other_blob : Option String → String → Bool
other_blob none d = false
other_blob (some c) d = not (str_eq c d)

-- The digest of a checkpoint: the one it verified, which may not replace another, or the row's own.
unfoldable pub checkpoint_digest : Option Value → Option String → Result (Option String)
unfolding is_digest
checkpoint_digest none current = ok current
checkpoint_digest (some (str d)) current = do
  raise_if (not (is_digest d)) (storage_io "IO_ERROR: malformed verified blob checkpoint")
  raise_if (other_blob current d) (conflict "PUBLISHED_BLOB_OWNERSHIP_UNRESOLVED")
  ok (some d)
checkpoint_digest (some _) current = err (storage_io "IO_ERROR: malformed verified blob checkpoint")

-- One round of the loop over the carried keys.
unfoldable pub carry_key : String → Fields → Fields → Fields → Fields
carry_key key previous progress updated = elim (get key previous) [
  | none ↦ updated
  | some v ↦
      if not (has "verified_sha256" progress) || not (has key updated)
      then put key v updated
      else updated
]

-- The keys of an outstanding publication that a checkpoint does not mention stay.
unfoldable pub carry : Option String → Fields → Fields → Fields
unfolding carry_key
carry none previous progress = progress
carry (some _) previous progress =
    carry_key "stage_token" previous progress
      (carry_key "bytes" previous progress (carry_key "verified_sha256" previous progress progress))

unfoldable pub checkpoint_ownership : Job → Fields → Result (Fields × Option String)
checkpoint_ownership row progress = do
  previous ← row_progress row
  digest ← checkpoint_digest (get "verified_sha256" progress) row.blob_sha256
  updated ← validate_progress (carry row.blob_sha256 previous progress)
  ok (updated, digest)
