-- ===== src/Cursor/Pages.antt =====
-- About cursors.py: a position that is encoded and decoded.
use Prim.Native.Char.{Char}
use mathlib.Core.Path.{subst}
use justpen_knowledgebase_mc.Base.{
  ℕ, zero, suc, ◌+◌, ◌-◌, ◌%◌, ◌≤◌, List, ◌&&◌, &&-true, ap, String, ◌≡◌, refl, sym, ◌∙◌, Bool,
  true, false, Option, none, some, ℤ, pos, negsuc, arith, ok, ok-injective, Bool-cases,
  Result-cases, inl, inr, ltb, eq_refl,
}
use justpen_knowledgebase_mc.Json.{Value, Fields, int, str, obj, get}
use justpen_knowledgebase_mc.Properties.Pointer.{append}
use justpen_knowledgebase_mc.Cursor.{
  CursorBinding, opt_str, is_cursor_char, is_pad, is_cursor_rest, pads, rstrip_pads, padded,
  is_unique_value, is_cursor_text, text_length, is_position, is_equal_int, is_equal_owner,
  validate_kind, key_count, has_all, cursor_fields, encode, is_owner, decode_fields, load_payload,
  checked_payload, decode_position,
}

-- Every character is one of the alphabet.
unfoldable pub all_cursor : String → Bool
all_cursor String.[] = true
all_cursor (String.◌∷◌ c s) = is_cursor_char c && all_cursor s

equal_int : (n : ℤ) → is_equal_int (some (int n)) n ≡ true
equal_int (pos n) = ground arith
equal_int (negsuc n) = ground arith

equal_owner : (o : Option String) → is_equal_owner (some (opt_str o)) o ≡ true
equal_owner none = refl
equal_owner (some s) = eq_refl s

-- A text of base64: characters of the alphabet, at least one, and at most two pads, which fill the last
-- group of four.
pub record IsBase64 (text : String) : Type 0 where
  pub first : Char
  pub others : String
  pub pad_count : ℕ
  pub whole : text ≡ append (String.◌∷◌ first others) (pads pad_count)
  pub starts : is_cursor_char first ≡ true
  pub alphabet : all_cursor others ≡ true
  pub few : pad_count ≤ 2
  pub groups : (text_length (String.◌∷◌ first others) + pad_count) % 4 ≡ 0

rstrip-pads : (n : ℕ) → rstrip_pads (pads n) ≡ String.[]
unfolding rstrip_pads pads append
rstrip-pads zero = refl
rstrip-pads (suc n) = rw (rstrip-pads n) refl

not_pad : (c : Char) → is_cursor_char c ≡ true → is_pad c ≡ false
not_pad c e = ground (arith, e)

rstrip-append :
    (s t : String) → all_cursor s ≡ true → rstrip_pads t ≡ String.[] → rstrip_pads (append s t) ≡ s
unfolding rstrip_pads append all_cursor
rstrip-append String.[] t all none_left = none_left
rstrip-append (String.◌∷◌ c s) t all none_left =
    let (char, rest) = &&-true (is_cursor_char c) (all_cursor s) all in
    rw (not_pad c char, rstrip-append s t rest none_left) refl

all-cursor_rest : (s : String) → all_cursor s ≡ true → is_cursor_rest s ≡ true
unfolding all_cursor is_cursor_rest
all-cursor_rest String.[] all = refl
all-cursor_rest (String.◌∷◌ c s) all =
    let (char, rest) = &&-true (is_cursor_char c) (all_cursor s) all in
    rw (char, all-cursor_rest s rest) refl

-- A base64 text loses its pads, is a cursor then, and gets the same pads back.
stripped-padded :
    (text : String)
    → IsBase64 text
    → (is_cursor_text (rstrip_pads text) ≡ true) × (padded (rstrip_pads text) ≡ text)
unfolding is_cursor_text padded
stripped-padded text b =
    let body = String.◌∷◌ b.first b.others in
    let all : all_cursor body ≡ true = unfold all_cursor in rw (b.starts, b.alphabet) refl in
    let bare : rstrip_pads text ≡ body =
      ap rstrip_pads b.whole
      ∙ rstrip-append body (pads b.pad_count) all (rstrip-pads b.pad_count) in
    let missing : (4 - text_length body % 4) % 4 ≡ b.pad_count = omega (arith, b.few, b.groups) in
    (
      rw (bare, b.starts, all-cursor_rest b.others b.alphabet) refl,
      rw (bare, missing) (sym b.whole),
    )

opt_str_unique : (o : Option String) → is_unique_value (opt_str o) ≡ true
unfolding is_unique_value
opt_str_unique none = refl
opt_str_unique (some s) = refl

cursor_fields_unique :
    (fingerprint : Fields → String) (b : CursorBinding) (after_id : ℤ) (after_kind : Option String)
    → is_unique_value (obj (cursor_fields fingerprint b after_id after_kind)) ≡ true
unfolding is_unique_value get
cursor_fields_unique fingerprint b after_id after_kind =
    rw (opt_str_unique after_kind, opt_str_unique b.owner_id) refl

payload-loaded :
    (b64decode : String → Option (List ℕ)) (loads : List ℕ → Option Value) (cursor : String)
    {text : String} {bytes : List ℕ} {v : Value}
    → padded cursor ≡ text
    → b64decode text ≡ some bytes
    → loads bytes ≡ some v
    → is_unique_value v ≡ true
    → load_payload loads (b64decode (padded cursor)) ≡ some v
unfolding load_payload checked_payload
payload-loaded b64decode loads cursor {v = v} same decodes loaded unique =
    ap (load_payload loads) (ap b64decode same ∙ decodes)
    ∙ ap checked_payload loaded
    ∙ rw unique refl

module _ (is_uuid : String → Bool) (fingerprint : Fields → String) (dumps : Fields → List ℕ)
    (b64encode : List ℕ → String) (b : CursorBinding) where
  abbrev packed_text : ℤ → Option String → String
  packed_text after_id after_kind =
      b64encode (dumps (cursor_fields fingerprint b after_id after_kind))

  -- What a successful encoding has checked.
  record Encodes (after_id : ℤ) (after_kind : Option String) (cursor : String) : Type 0 where
    is_packed : rstrip_pads (packed_text after_id after_kind) ≡ cursor
    small : ltb 4096 (text_length cursor) ≡ false
    position : is_position (some (int after_id)) ≡ true
    kind_fits : validate_kind b (some (opt_str after_kind)) ≡ ok tt

  encode-Encodes :
      (after_id : ℤ) (after_kind : Option String) (cursor : String)
      → encode fingerprint dumps b64encode b after_id after_kind ≡ ok cursor
      → Encodes after_id after_kind cursor
  unfolding encode
  encode-Encodes after_id after_kind cursor h =
      let packed = rstrip_pads (packed_text after_id after_kind) in
      elim (Bool-cases (is_position (some (int after_id)))) [
        | inr e ↦ absurd (ground (arith, e, h))
        | inl e ↦ elim (Result-cases (validate_kind b (some (opt_str after_kind)))) [
          | inl (x, f) ↦ absurd (ground (arith, e, f, h))
          | inr (tt, f) ↦ elim (Bool-cases (ltb 4096 (text_length packed))) [
            | inl g ↦ absurd (ground (arith, e, f, g, h))
            | inr g ↦
                let same : packed ≡ cursor = ok-injective (sym (rw (e, f, g) refl) ∙ h) in
                record { is_packed = same; small = rw (sym same) g; position = e; kind_fits = f }
          ]
        ]
      ]

  fields-decode :
      (after_id : ℤ) (after_kind : Option String) {cursor : String}
      → Encodes after_id after_kind cursor
      → is_uuid b.workspace_id ≡ true
      → is_owner is_uuid (some (str b.kind)) (some (opt_str b.owner_id)) ≡ true
      → is_position (some (int b.query_epoch)) ≡ true
      → decode_fields is_uuid fingerprint b (cursor_fields fingerprint b after_id after_kind)
        ≡ ok (some (int after_id), some (opt_str after_kind))
  unfolding decode_fields get key_count has_all
  fields-decode after_id after_kind e uuid owner epoch =
      rw
        (
          epoch,
          e.position,
          uuid,
          owner,
          eq_refl b.workspace_id,
          equal_int b.query_epoch,
          eq_refl b.kind,
          equal_owner b.owner_id,
          eq_refl b.view,
          eq_refl (fingerprint b.query),
          e.kind_fits,
        )
        refl

  -- A cursor that is encoded decodes, under the same binding, to the position and the kind that it was
  -- made of. The binding is one that a workspace has: its id is a UUID, its owner is a record id of its
  -- kind or is absent, and its epoch is a nonnegative signed 64-bit integer. Of the libraries it is
  -- assumed, on the object of this cursor, that its base64 has full groups and at most two pads and is
  -- decoded to the same bytes, and that these bytes are loaded as the object that was dumped.
  pub decode_position-encode :
      (b64decode : String → Option (List ℕ)) (loads : List ℕ → Option Value) (after_id : ℤ)
      (after_kind : Option String) (cursor : String)
      → is_uuid b.workspace_id ≡ true
      → is_owner is_uuid (some (str b.kind)) (some (opt_str b.owner_id)) ≡ true
      → is_position (some (int b.query_epoch)) ≡ true
      → IsBase64 (packed_text after_id after_kind)
      → b64decode (packed_text after_id after_kind)
        ≡ some (dumps (cursor_fields fingerprint b after_id after_kind))
      → loads (dumps (cursor_fields fingerprint b after_id after_kind))
        ≡ some (obj (cursor_fields fingerprint b after_id after_kind))
      → encode fingerprint dumps b64encode b after_id after_kind ≡ ok cursor
      → decode_position is_uuid fingerprint b64decode loads b cursor
        ≡ ok (some (int after_id), some (opt_str after_kind))
  unfolding decode_position
  decode_position-encode b64decode loads after_id after_kind cursor uuid owner epoch base decodes
        loaded h =
      let e = encode-Encodes after_id after_kind cursor h in
      let (is_text, repadded) = stripped-padded (packed_text after_id after_kind) base in
      let small : ltb 4096 (text_length (rstrip_pads (packed_text after_id after_kind))) ≡ false =
        rw e.is_packed e.small in
      let payload : load_payload loads
            (b64decode (padded (rstrip_pads (packed_text after_id after_kind))))
          ≡ some (obj (cursor_fields fingerprint b after_id after_kind)) =
        payload-loaded b64decode loads (rstrip_pads (packed_text after_id after_kind)) repadded
          decodes loaded (cursor_fields_unique fingerprint b after_id after_kind) in
      subst
        (λ text.
          decode_position is_uuid fingerprint b64decode loads b text
          ≡ ok (some (int after_id), some (opt_str after_kind)))
        e.is_packed
        (rw (small, is_text, payload) (fields-decode after_id after_kind e uuid owner epoch))
