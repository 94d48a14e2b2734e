-- ===== src/Verbs/Passes.antt =====
-- The steps of `open` of src/cli/v2/truepad2.ts on a record that they let through.
use true_pad.Base.{same_self, length-take_le, length-drop}
use true_pad.Base.Xor.{xor_bytes}
use true_pad.Direction.{Direction, same_direction_self}
use true_pad.Frame.RoundTrip.{layout, length-layout, build_frame-layout, parse_frame-build_frame}
use true_pad.Frame.{frame_capacity, build_frame, parse_frame}
use true_pad.Partition.{AuthRecord, slice_at}
use true_pad.Tag.{wc_tag, max_ciphertext_bytes}
use true_pad.Tag.Verify.{tags_equal_iff}
use true_pad.Store.Head.{HeadV2, RecordSpec, variable, fixed}
use true_pad.Store.Journal.{attempt_line}
use true_pad.Store.Load.{LoadedStore, read_auth_record, read_encryption}
use true_pad.Store.Write.{journal_line, reserve_attempt, commit_advance}
use true_pad.Verbs.Outcome.{
  released, proceed, before, attempt, durable, released_then, free_then, check_then, check_passes,
  check_then_inv, attempt-released, released-injective,
}
use true_pad.Verbs.Pair.{LoadedPair, require_not_frozen}
use true_pad.Verbs.Witness.{Witness, witness_preflight, witness_advance}
use true_pad.Envelope.{EnvelopeV2}
use true_pad.Verbs.Burn.{burn_payload, pair_id_of, fields_of}
use true_pad.Verbs.Open.{
  is_wrong_size, open_structural, open_window, open_gates, opened_head, opened_line,
  opened_counters, unframed, open_fail, open_pass, reserved_counters, open_reserve, expected_tag,
  open_verify,
}
use true_pad.Base.{
  ℕ, ◌+◌, ◌≤◌, ◌<◌, ◌≡◌, refl, sym, ap, ◌∙◌, true, false, [], ◌∷◌, Option, none, some, arith, Bytes,
  length, drop, ltb, if◌then◌else◌, max_safe, append-nil,
}

pub structural_passes :
    (store : LoadedStore) (d : Direction) (e : EnvelopeV2)
    → store.head.pair_id ≡ e.pair_id
    → d ≡ e.direction
    → is_wrong_size store.head.record_policy e.ciphertext_length ≡ false
    → open_structural store d e ≡ proceed
unfolding open_structural
structural_passes store d e p q r =
    check_then _ _ _ (rw p (rw (same_self e.pair_id) refl))
    ∙ check_then _ _ _ (rw q (rw (same_direction_self e.direction) refl))
    ∙ check_passes _ _ r

pub window_passes :
    (store : LoadedStore) (e : EnvelopeV2)
    → store.effective.next_sequence ≤ e.sequence
    → e.sequence < store.head.authentication.capacity_records
    → e.sequence < store.effective.next_sequence + store.head.authentication.max_auth_lookahead
    → store.effective.next_offset ≤ e.start_offset
    → e.start_offset + e.ciphertext_length ≤ store.head.encryption.capacity
    → open_window store e ≡ proceed
unfolding open_window
window_passes store e a b c d f =
    check_then _ _ _ (ground arith)
    ∙ check_then _ _ _ (ground arith)
    ∙ check_then _ _ _ (ground arith)
    ∙ check_then _ _ _ (ground arith)
    ∙ check_passes _ _ (ground arith)

pub gates_pass :
    (w : Witness) (pair : LoadedPair) (store : LoadedStore) (n : ℕ)
    → require_not_frozen pair ≡ proceed
    → witness_preflight store.head.rollback w store.effective ≡ proceed
    → store.effective.attempts n < store.head.authentication.verify_attempt_limit
    → open_gates w pair store n ≡ proceed
unfolding open_gates
gates_pass w pair store n a b c =
    free_then _ _ tt a ∙ free_then _ _ tt b ∙ check_passes _ _ (ground arith)

pub reserve_passes :
    (w : Witness) (store : LoadedStore) (n : ℕ)
    → n ≤ max_safe
    → witness_advance store.head.rollback w (reserved_counters store) ≡ proceed
    → open_reserve w store n ≡ released tt (journal_line (attempt_line n) ∷ [])
unfolding open_reserve reserve_attempt attempt before
reserve_passes w store n small a =
    let line = journal_line (attempt_line n) ∷ [] in
    let e : (if ltb max_safe n then none else some line) ≡ some line = ground arith in
    free_then _ _ line (ap attempt e)
    ∙ released_then (durable line) _ tt line refl
    ∙ ap (before line) a

attempt_passes : {A : Type 0} (o : Option A) (a : A) → o ≡ some a → attempt o ≡ released a []
unfolding attempt
attempt_passes o a e = ap attempt e

pub expected_passes :
    (secret : Bytes) (store : LoadedStore) (d : Direction) (e : EnvelopeV2) (m : AuthRecord)
    (id tag : Bytes)
    → read_auth_record secret store.head e.sequence ≡ some m
    → pair_id_of store.head ≡ released id []
    → wc_tag m.key m.mask (fields_of id d e.sequence e.start_offset e.ciphertext) ≡ some tag
    → expected_tag secret store d e ≡ released tag []
unfolding expected_tag
expected_passes secret store d e m id tag a b c =
    free_then _ _ m (attempt_passes _ m a) ∙ free_then _ _ id b ∙ attempt_passes _ tag c

pub pass_releases :
    (w : Witness) (secret : Bytes) (store : LoadedStore) (e : EnvelopeV2) (pad plaintext : Bytes)
    → read_encryption secret store.head e.start_offset e.ciphertext_length ≡ some pad
    → witness_advance store.head.rollback w (opened_counters store e) ≡ proceed
    → unframed store.head.record_policy (xor_bytes e.ciphertext pad) ≡ released plaintext []
    → open_pass w secret store e
      ≡ released plaintext (commit_advance (opened_head store e) (opened_line store e))
unfolding open_pass before
pass_releases w secret store e pad plaintext a b c =
    let ws = commit_advance (opened_head store e) (opened_line store e) in
    free_then _ _ pad (attempt_passes _ pad a)
    ∙ released_then (durable ws) _ tt ws refl
    ∙ ap (before ws) (free_then _ _ tt b ∙ c)
    ∙ ap (released plaintext) (append-nil ws)

build_frame_safe : (f : ℕ) (p payload : Bytes) → build_frame p f ≡ some payload → f ≤ max_safe
unfolding build_frame
build_frame_safe f p payload e = ground arith

pub build_frame_room :
    (f : ℕ) (p payload : Bytes)
    → build_frame p f ≡ some payload
    → ltb (frame_capacity f) (length p) ≡ false
    → length p + 4 ≤ f
unfolding build_frame frame_capacity
build_frame_room f p payload e fits = ground arith

framed_size :
    (f : ℕ) (p payload : Bytes)
    → length p + 4 ≤ f
    → some (layout p f) ≡ some payload
    → length payload ≡ f
framed_size f p payload fits e =
    let q : layout p f ≡ payload = ground arith in sym (ap length q) ∙ length-layout p f fits

framed_opens :
    (f : ℕ) (p payload : Bytes)
    → length p + 4 ≤ f
    → build_frame p f ≡ some payload
    → length payload ≤ max_ciphertext_bytes
    → (is_wrong_size (fixed f) (length payload) ≡ false) × (parse_frame payload ≡ some p)
unfolding is_wrong_size
framed_opens f p payload fits e small =
    let safe : f ≤ max_safe = build_frame_safe f p payload e in
    let q = sym (build_frame-layout p f fits safe) ∙ e in
    let lf : length payload ≡ f = framed_size f p payload fits q in
    let (frame, made, l, parsed) = parse_frame-build_frame p f fits (omega arith) in
    let same_frame : frame ≡ payload = ground arith in
    (ground arith, sym (ap parse_frame same_frame) ∙ parsed)

-- What an opened record of a store gives back of the payload that was sealed.
pub payload_opens :
    (r : RecordSpec) (p payload : Bytes)
    → burn_payload r p ≡ released payload []
    → length payload ≤ max_ciphertext_bytes
    → (is_wrong_size r (length payload) ≡ false) × (unframed r payload ≡ released p [])
unfolding burn_payload unframed is_wrong_size frame_capacity
payload_opens variable p payload h small =
    (refl, ap (λ x. released x []) (sym (released-injective p payload [] [] h).0))
payload_opens (fixed f) p payload h small =
    let (fits, made) = check_then_inv _ _ _ payload [] h in
    let built = (attempt-released _ payload [] made).0 in
    let room : length p + 4 ≤ f = build_frame_room f p payload built fits in
    let (size, parsed) = framed_opens f p payload room built small in
    (size, ap attempt parsed ∙ attempt_passes (some p) p refl)

pub same_material :
    (secret : Bytes) (s r : HeadV2) (n o c : ℕ)
    → r.encryption.capacity ≡ s.encryption.capacity
    → r.authentication.capacity_records ≡ s.authentication.capacity_records
    → r.pair_id ≡ s.pair_id
    → (read_auth_record secret r n ≡ read_auth_record secret s n)
      × (read_encryption secret r o c ≡ read_encryption secret s o c)
      × (pair_id_of r ≡ pair_id_of s)
unfolding read_auth_record read_encryption pair_id_of
same_material secret s r n o c a b p = (rw (a, b) refl, rw a refl, rw p refl)

pub read_encryption-length :
    (secret : Bytes) (head : HeadV2) (o c : ℕ) (pad : Bytes)
    → read_encryption secret head o c ≡ some pad
    → length pad ≡ c
unfolding read_encryption
read_encryption-length secret head o c pad h =
    let room : o + c ≤ length secret = ground arith in
    let e : slice_at secret o c ≡ pad = ground arith in
    sym (ap length e) ∙ length-take_le c (drop o secret) (omega (arith, length-drop o secret))

pub fields_eq :
    (id : Bytes) (d d' : Direction) (n n' o o' : ℕ) (c c' : Bytes)
    → d ≡ d'
    → n ≡ n'
    → o ≡ o'
    → c ≡ c'
    → fields_of id d n o c ≡ fields_of id d' n' o' c'
fields_eq id d d' n n' o o' c c' p q r s = rw (p, q, r, s) refl

pub verify_passes :
    (w : Witness) (secret : Bytes) (store : LoadedStore) (e : EnvelopeV2)
    → length e.tag ≡ 16
    → open_verify w secret store e e.tag ≡ open_pass w secret store e
unfolding open_verify
verify_passes w secret store e l =
    ap (λ b. elim b [ true ↦ open_pass w secret store e | false ↦ open_fail store e.sequence ])
      ((tags_equal_iff e.tag e.tag).1 (refl, l))
