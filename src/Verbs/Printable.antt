-- ===== src/Verbs/Printable.antt =====
-- What `burn` of src/cli/v2/truepad2.ts gives out can be printed.
use true_pad.Base.{
  ℕ, ◌+◌, ◌-◌, ◌*◌, ◌≤◌, ◌≡◌, ◌⊎◌, inl, inr, sym, ap, subst, ◌∙◌, true, false, List, [], Option,
  none, some, arith, Bytes, IsByte, IsBytes, length, drop, ◌==◌, Bool-cases, max_safe,
}
use true_pad.Base.{
  ==_iff, length-drop, length-take_le, All-append, All-take, All-drop, All-replicate,
}
use true_pad.Base.Buffer.{le_bytes, le_bytes-IsBytes}
use true_pad.Base.Xor.{xor_bytes, length-xor_bytes, xor_bytes-IsBytes}
use true_pad.Direction.{Direction}
use true_pad.Frame.{frame_capacity, build_frame}
use true_pad.Frame.RoundTrip.{layout, build_frame-layout}
use true_pad.Codec.Hex.{hex_to_bytes}
use true_pad.Codec.Hex.RoundTrip.{hex_to_bytes_canonical}
use true_pad.Partition.{AuthRecord, slice_at}
use true_pad.Tag.{max_ciphertext_bytes}
use true_pad.Tag.Layout.{IsValid}
use true_pad.Tag.Verify.{wc_tag_total}
use true_pad.Envelope.{EnvelopeV2, is_hex32}
use true_pad.Envelope.RoundTrip.{IsEnvelope, tag_is_hex32}
use true_pad.Store.Head.{HeadV2, RecordSpec, variable, fixed}
use true_pad.Store.Load.{LoadedStore, read_auth_record, read_encryption}
use true_pad.Store.Write.{Write}
use true_pad.Verbs.Outcome.{released, check_then_inv, attempt-released, released-injective}
use true_pad.Verbs.Pair.{Party, burning, direction_for, LoadedPair, half}
use true_pad.Verbs.Witness.{Witness}
use true_pad.Verbs.Burn.{burn, burn_payload, pair_id_of, valid_pair_id, fields_of}
use true_pad.Verbs.Sent.{IsStaged, burn_inv}
use true_pad.Verbs.Passes.{read_encryption-length, build_frame_room}

some_injective : (a b : Bytes) → some a ≡ some b → a ≡ b
some_injective a b h = ground arith

frame_safe : (p : Bytes) (f : ℕ) (payload : Bytes) → build_frame p f ≡ some payload → f ≤ max_safe
unfolding build_frame
frame_safe p f payload h = ground arith

valid_pair_id_inv :
    (o : Option Bytes) (id : Bytes)
    → valid_pair_id o ≡ released id []
    → (o ≡ some id) × (length id ≡ 16)
unfolding valid_pair_id
valid_pair_id_inv none id h = absurd (ground arith)
valid_pair_id_inv (some b) id h = by_length (Bool-cases (length b == 16))
  where
    by_length :
        ((length b == 16) ≡ true) ⊎ ((length b == 16) ≡ false)
        → (some b ≡ some id) × (length id ≡ 16)
    by_length (inl y) =
        let q : b ≡ id = ground arith in
        (ap some q, omega (arith, ap length q, (==_iff (length b) 16).0 y))
    by_length (inr n) = absurd (ground arith)

slice-IsBytes : (bs : Bytes) (o c : ℕ) → IsBytes bs → IsBytes (slice_at bs o c)
slice-IsBytes bs o c h = All-take IsByte c (drop o bs) (All-drop IsByte o bs h)

length-slice : (bs : Bytes) (o c : ℕ) → o + c ≤ length bs → length (slice_at bs o c) ≡ c
length-slice bs o c h = length-take_le c (drop o bs) (omega (arith, length-drop o bs))

read_encryption-IsBytes :
    (secret : Bytes) (head : HeadV2) (o c : ℕ) (pad : Bytes)
    → IsBytes secret
    → read_encryption secret head o c ≡ some pad
    → IsBytes pad
unfolding read_encryption
read_encryption-IsBytes secret head o c pad ok h =
    let e : slice_at secret o c ≡ pad = ground arith in
    subst IsBytes e (slice-IsBytes secret o c ok)

-- A record of the secret body: a key and a mask of sixteen bytes each.
IsMaterial : AuthRecord → Type 0
IsMaterial m = (length m.key ≡ 16) × (length m.mask ≡ 16) × IsBytes m.mask

read_auth_record-IsMaterial :
    (secret : Bytes) (head : HeadV2) (n : ℕ) (m : AuthRecord)
    → IsBytes secret
    → read_auth_record secret head n ≡ some m
    → IsMaterial m
unfolding read_auth_record IsMaterial
read_auth_record-IsMaterial secret head n m ok h =
    let base = head.encryption.capacity + 32 * n in
    let room : base + 32 ≤ length secret = ground arith in
    let e : record { key = slice_at secret base 16; mask = slice_at secret (base + 16) 16 } ≡ m =
      ground arith in
    subst IsMaterial e (
      length-slice secret base 16 (omega arith),
      length-slice secret (base + 16) 16 (omega arith),
      slice-IsBytes secret (base + 16) 16 ok,
    )

read_auth_record_safe :
    (secret : Bytes) (head : HeadV2) (n : ℕ) (m : AuthRecord)
    → read_auth_record secret head n ≡ some m
    → n ≤ max_safe
unfolding read_auth_record
read_auth_record_safe secret head n m h = ground arith

read_encryption_safe :
    (secret : Bytes) (head : HeadV2) (o c : ℕ) (pad : Bytes)
    → read_encryption secret head o c ≡ some pad
    → o ≤ max_safe
unfolding read_encryption
read_encryption_safe secret head o c pad h = ground arith

burn_payload-IsBytes :
    (r : RecordSpec) (p payload : Bytes)
    → IsBytes p
    → length payload ≤ max_ciphertext_bytes
    → burn_payload r p ≡ released payload []
    → IsBytes payload
unfolding burn_payload frame_capacity
burn_payload-IsBytes variable p payload ok small h =
    subst IsBytes (released-injective p payload [] [] h).0 ok
burn_payload-IsBytes (fixed f) p payload ok small h =
    let (fits, made) = check_then_inv _ _ _ payload [] h in
    let built = (attempt-released _ payload [] made).0 in
    let room : length p + 4 ≤ f = build_frame_room f p payload built fits in
    let q : layout p f ≡ payload =
      some_injective (layout p f) payload
        (sym (build_frame-layout p f room (frame_safe p f payload built)) ∙ built) in
    subst IsBytes q (
      All-append IsByte (le_bytes 4 (length p)) _ (le_bytes-IsBytes 4 (length p))
        (All-append IsByte p _ ok (All-replicate IsByte (f - 4 - length p) 0 (omega arith))))

staged_tag :
    (secret : Bytes) (store : LoadedStore) (d : Direction) (payload : Bytes) (e : EnvelopeV2)
    → IsStaged secret store d payload e
    → IsBytes secret
    → e.sequence ≤ max_safe
    → e.start_offset ≤ max_safe
    → length e.ciphertext ≤ max_ciphertext_bytes
    → IsBytes e.ciphertext
    → (is_hex32 e.pair_id ≡ true) × (length e.tag ≡ 16) × IsBytes e.tag
unfolding pair_id_of IsMaterial
staged_tag secret store d payload e y ok safe start small bytes =
    let (found, l16) =
      valid_pair_id_inv (hex_to_bytes store.head.pair_id) y.pair_id y.pair_id_read in
    let (spelled, id_ok) = hex_to_bytes_canonical store.head.pair_id y.pair_id found in
    let (lk, lm, bm) =
      read_auth_record-IsMaterial secret store.head store.effective.next_sequence y.material ok
        y.material_read in
    let fields =
      fields_of y.pair_id d store.effective.next_sequence store.effective.next_offset
        (xor_bytes payload y.pad) in
    let valid : IsValid fields = record {
      pair_id_length = l16;
      pair_id_bytes = id_ok;
      sequence_safe = omega (arith, y.sequence_eq, safe);
      start_safe = omega (arith, y.start_eq, start);
      ciphertext_length = omega (arith, ap length y.ciphertext_eq, small);
      ciphertext_bytes = subst IsBytes (sym y.ciphertext_eq) bytes;
    } in
    let (t, made, lt, bt, _) = wc_tag_total y.material.key y.material.mask fields lk lm bm valid in
    let q = some_injective t e.tag (sym made ∙ y.tag_made) in
    (
      subst (λ x. is_hex32 x ≡ true) (spelled ∙ y.pair_id_eq) (tag_is_hex32 y.pair_id id_ok l16),
      ap length (sym q) ∙ lt,
      subst IsBytes q bt,
    )

-- What `burn` gives out is within the domains of `encodeEnvelope2`: the plaintext and the secret body
-- are bytes, and the store has the ciphertext bound of the format.
pub burn-IsEnvelope :
    (role : Party) (p : Bytes) (w : Witness) (secret : Bytes) (pair : LoadedPair) (e : EnvelopeV2)
    (ws : List Write)
    → burn role p w secret pair ≡ released e ws
    → IsBytes p
    → IsBytes secret
    → (half pair (direction_for role burning)).head.authentication.max_ciphertext
      ≡ max_ciphertext_bytes
    → IsEnvelope e
burn-IsEnvelope role p w secret pair e ws b p_ok s_ok pinned =
    let x = burn_inv role p w secret pair e ws b in
    let y = x.staged in
    let store = half pair (direction_for role burning) in
    let lp =
      read_encryption-length secret store.head store.effective.next_offset (length x.payload) y.pad
        y.pad_read in
    let lc : length e.ciphertext ≡ length x.payload =
      ap length (sym y.ciphertext_eq) ∙ length-xor_bytes x.payload y.pad (omega arith) in
    let small : length x.payload ≤ max_ciphertext_bytes = omega (arith, x.size_bound, pinned) in
    let bytes : IsBytes e.ciphertext = subst IsBytes y.ciphertext_eq (
      xor_bytes-IsBytes x.payload y.pad
        (burn_payload-IsBytes store.head.record_policy p x.payload p_ok small x.framed)
        (read_encryption-IsBytes secret store.head store.effective.next_offset (length x.payload)
          y.pad s_ok y.pad_read)) in
    let safe : e.sequence ≤ max_safe = omega (
      arith,
      y.sequence_eq,
      read_auth_record_safe secret store.head store.effective.next_sequence y.material
          y.material_read,
    ) in
    let start : e.start_offset ≤ max_safe = omega (
      arith,
      y.start_eq,
      read_encryption_safe secret store.head store.effective.next_offset (length x.payload) y.pad
          y.pad_read,
    ) in
    let (hex, lt, bt) =
      staged_tag secret store (direction_for role burning) x.payload e y s_ok safe start
        (omega arith) bytes in
    record {
      pair_id = hex;
      sequence = safe;
      start_offset = start;
      bounded = omega (arith, y.length_eq, small);
      declared = lc ∙ y.length_eq;
      ciphertext = bytes;
      tag_length = lt;
      tag = bt;
    }
