-- ===== src/Store/Header.antt =====
-- `validateHead` of src/cli/v2/store2.ts: the shape and the domains of `head.json`. Paths are those of a
-- POSIX system.
mod Tests
pub mod Shape
pub mod Parts
pub mod Sound
use true_pad.Base.{
  ℕ, zero, suc, ◌+◌, ◌-◌, ◌*◌, ◌/◌, ◌%◌, ◌^◌, ◌≤◌, ◌<◌, ◌≡◌, ◌≢◌, ◌↔◌, ◌⊎◌, inl, inr, refl, sym, ap,
  ap₂, subst, ◌∙◌, bit_and, bit_or, bit_xor, true, false, not, ◌&&◌, ◌||◌, List, [], ◌∷◌, ◌++◌,
  Bool, Option, none, some, arith, Bytes, IsByte, IsBytes, All, length, take, drop, replicate,
  get_elem?, get_or, ◌==◌, ltb, leb, if◌then◌else◌, ◌>>=◌, min, max, Bool-cases, Option-cases,
  codes, max_safe, same, append-nil, append_assoc, map,
}
use true_pad.Direction.{Direction}
use true_pad.Tag.{max_ciphertext_bytes}
use true_pad.Json.Tree.{
  Json, count, string, flag, array, object, other, Items, no_items, item, Members, no_members,
  member, value_of, safe_count,
}
use true_pad.Envelope.{is_hex32, all_hex}
use true_pad.Envelope.Decimal.{to_decimal, is_canonical}
use true_pad.Envelope.Decode.{includes}
use true_pad.Store.Head.{
  RecordSpec, variable, fixed, Rollback, no_witness, separate_state_file, platform_monotonic,
  remote_monotonic, Encryption, Authentication, Verification, HeadV2,
}
use true_pad.Store.Text.{string_of, direction_of, count_of}
use true_pad.Store.Header.Shape.{
  own, all_own, all_expected, keys_match, require, object_of, exact_object, is_text, is_count_of,
  is_false,
}

abbrev pub is_declaration : Json → Bool
is_declaration (object ms) =
    keys_match ms (codes "name" ∷ codes "declaredOrigin" ∷ codes "lengthBytes" ∷ [])
    && elim (string_of (value_of (codes "name") ms)) [ some _ ↦ true | none ↦ false ]
    && elim (string_of (value_of (codes "declaredOrigin") ms)) [ some _ ↦ true | none ↦ false ]
    && elim (count_of ms (codes "lengthBytes")) [ some _ ↦ true | none ↦ false ]
is_declaration _ = false

unfoldable pub all_declarations : Items → Bool
all_declarations no_items = true
all_declarations (item v xs) = is_declaration v && all_declarations xs

abbrev pub are_declarations : Option Json → Bool
are_declarations (some (array xs)) = all_declarations xs
are_declarations _ = false

unfoldable pub validate_encryption : Option Json → Option Encryption
validate_encryption v = do
  ms ← exact_object (codes "capacity" ∷ codes "nextOffset" ∷ []) v
  capacity ← count_of ms (codes "capacity")
  next_offset ← count_of ms (codes "nextOffset")
  _ ← require (leb next_offset capacity)
  some (record { capacity = capacity; next_offset = next_offset })

abbrev pub auth_keys : List (List ℕ)
auth_keys =
    codes "profile"
    ∷ codes "tagBits"
    ∷ codes "capacityRecords"
    ∷ codes "nextSequence"
    ∷ codes "verifyAttemptLimit"
    ∷ codes "maxCiphertextBytes"
    ∷ codes "maxAuthLookahead"
    ∷ []

unfoldable pub validate_authentication : Option Json → Option Authentication
validate_authentication v = do
  ms ← exact_object auth_keys v
  _ ← require (is_text (value_of (codes "profile") ms) (codes "wc-one-time-v1"))
  _ ← require (is_count_of (value_of (codes "tagBits") ms) 128)
  records ← count_of ms (codes "capacityRecords")
  next_sequence ← count_of ms (codes "nextSequence")
  _ ← require (leb next_sequence records)
  limit ← count_of ms (codes "verifyAttemptLimit")
  lookahead ← count_of ms (codes "maxAuthLookahead")
  _ ← require (is_count_of (value_of (codes "maxCiphertextBytes") ms) max_ciphertext_bytes)
  some (record {
    capacity_records = records;
    next_sequence = next_sequence;
    verify_attempt_limit = limit;
    max_ciphertext = max_ciphertext_bytes;
    max_auth_lookahead = lookahead;
  })

-- The size of a fixed record.
abbrev pub is_record_size : ℕ → Bool
is_record_size f = leb 32 f && leb f max_ciphertext_bytes && f % 16 == 0

unfoldable pub validate_fixed : Members → Option RecordSpec
validate_fixed ms = do
  _ ← require (keys_match ms (codes "kind" ∷ codes "bytes" ∷ []))
  f ← count_of ms (codes "bytes")
  _ ← require (is_record_size f)
  some (fixed f)

unfoldable pub validate_variable : Members → Option RecordSpec
validate_variable ms = do _ ← require (keys_match ms (codes "kind" ∷ [])); some variable

unfoldable pub validate_record : Option Json → Option RecordSpec
validate_record v = do
  ms ← object_of v
  let kind = value_of (codes "kind") ms
  if is_text kind (codes "variable")
      then validate_variable ms
      else if is_text kind (codes "fixed")
      then validate_fixed ms
      else none

-- A policy without a `record` is of variable records.
unfoldable pub validate_policy : Option Json → Option RecordSpec
validate_policy v = do
  ms ← object_of v
  let keys = codes "authenticated" ∷ codes "downgradeAllowed" ∷ []
  let has_record = own ms (codes "record")
  _ ← require (keys_match ms (if has_record then keys ++ codes "record" ∷ [] else keys))
  _ ← require (is_text (value_of (codes "authenticated") ms) (codes "required"))
  _ ← require (is_false (value_of (codes "downgradeAllowed") ms))
  if has_record then validate_record (value_of (codes "record") ms) else some variable

-- `isAbsolute`.
abbrev pub is_absolute : List ℕ → Bool
is_absolute [] = false
is_absolute (c ∷ cs) = c == b'/'

-- `/^0x[0-9a-f]{8}$/`.
abbrev pub is_handle : List ℕ → Bool
is_handle t = same (take 2 t) (codes "0x") && length (drop 2 t) == 8 && all_hex (drop 2 t)

-- `/^[0-9a-f]{4,128}$/`.
abbrev pub is_nv_name : List ℕ → Bool
is_nv_name t = leb 4 (length t) && leb (length t) 128 && all_hex t

unfoldable pub validate_state_file : Members → Option Rollback
validate_state_file config = do
  _ ← require (keys_match config (codes "path" ∷ []))
  path ← string_of (value_of (codes "path") config)
  _ ← require (is_absolute path)
  some (separate_state_file path)

unfoldable pub validate_platform : Members → Option Rollback
validate_platform config = do
  _ ← require (
      keys_match config (
        codes "provider"
        ∷ codes "statePath"
        ∷ codes "nvIndex"
        ∷ codes "nvName"
        ∷ codes "authorityId"
        ∷ []))
  _ ← require (is_text (value_of (codes "provider") config) (codes "tpm2-nv-counter-v1"))
  path ← string_of (value_of (codes "statePath") config)
  _ ← require (is_absolute path)
  handle ← string_of (value_of (codes "nvIndex") config)
  _ ← require (is_handle handle)
  name ← string_of (value_of (codes "nvName") config)
  _ ← require (is_nv_name name)
  authority ← string_of (value_of (codes "authorityId") config)
  _ ← require (is_hex32 authority)
  some platform_monotonic

abbrev pub is_empty_object : Members → Bool
is_empty_object no_members = true
is_empty_object _ = false

unfoldable pub validate_rollback : Option Json → Option Rollback
validate_rollback v = do
  ms ← exact_object (codes "witnessClass" ∷ codes "config" ∷ []) v
  config ← object_of (value_of (codes "config") ms)
  let class = value_of (codes "witnessClass") ms
  if is_text class (codes "none")
      then (if is_empty_object config then some no_witness else none)
      else if is_text class (codes "separate-state-file")
      then validate_state_file config
      else if is_text class (codes "platform-monotonic")
      then validate_platform config
      else if is_text class (codes "remote-monotonic")
      then some remote_monotonic
      else none

unfoldable pub are_attempts : Members → Bool
are_attempts no_members = true
are_attempts (member k v ms) =
    is_canonical k && elim (safe_count (some v)) [ some _ ↦ true | none ↦ false ] && are_attempts ms

abbrev pub count_or_zero : Option ℕ → ℕ
count_or_zero none = 0
count_or_zero (some n) = n

-- `perSequenceAttempts[String(sequence)] ?? 0`.
abbrev pub attempts_at : Members → ℕ → ℕ
attempts_at ms sequence = count_or_zero (count_of ms (to_decimal sequence))

unfoldable pub validate_verification : Option Json → Option Verification
validate_verification v = do
  ms ←
      exact_object
        (codes "failurePolicy"
          ∷ codes "failureCount"
          ∷ codes "clearedAtFailureCount"
          ∷ codes "perSequenceAttempts"
          ∷ [])
        v
  policy ←
      exact_object (codes "kind" ∷ codes "threshold" ∷ []) (value_of (codes "failurePolicy") ms)
  _ ← require (is_text (value_of (codes "kind") policy) (codes "freeze"))
  threshold ← count_of policy (codes "threshold")
  failure_count ← count_of ms (codes "failureCount")
  cleared ← count_of ms (codes "clearedAtFailureCount")
  attempts ← object_of (value_of (codes "perSequenceAttempts") ms)
  _ ← require (are_attempts attempts)
  some (record {
    threshold = threshold;
    failure_count = failure_count;
    cleared_at_failure_count = cleared;
    per_sequence_attempts = attempts_at attempts;
  })

abbrev pub top_keys : List (List ℕ)
top_keys =
    codes "formatVersion"
    ∷ codes "pairId"
    ∷ codes "direction"
    ∷ codes "mode"
    ∷ codes "sourceDeclarations"
    ∷ codes "encryption"
    ∷ codes "authentication"
    ∷ codes "recordPolicy"
    ∷ codes "rollback"
    ∷ codes "verification"
    ∷ []

-- The pair id's text, in its domain.
abbrev pub pair_id_text : Option Json → Option (List ℕ)
pair_id_text (some (string units)) = if is_hex32 units then some units else none
pair_id_text _ = none

unfoldable pub validate_parts : Members → Option HeadV2
validate_parts ms = do
  pair_id ← pair_id_text (value_of (codes "pairId") ms)
  direction ← direction_of (value_of (codes "direction") ms)
  _ ← require (is_text (value_of (codes "mode") ms) (codes "bytes"))
  _ ← require (are_declarations (value_of (codes "sourceDeclarations") ms))
  encryption ← validate_encryption (value_of (codes "encryption") ms)
  authentication ← validate_authentication (value_of (codes "authentication") ms)
  policy ← validate_policy (value_of (codes "recordPolicy") ms)
  rollback ← validate_rollback (value_of (codes "rollback") ms)
  verification ← validate_verification (value_of (codes "verification") ms)
  some (record {
    pair_id = pair_id;
    direction = direction;
    encryption = encryption;
    authentication = authentication;
    record_policy = policy;
    rollback = rollback;
    verification = verification;
  })

unfoldable pub validate_head : Json → Option HeadV2
validate_head (object ms) = do
  _ ← require (keys_match ms top_keys)
  _ ← require (is_count_of (value_of (codes "formatVersion") ms) 2)
  validate_parts ms
validate_head _ = none
