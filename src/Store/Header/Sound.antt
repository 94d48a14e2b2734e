-- ===== src/Store/Header/Sound.antt =====
-- A header that `validateHead` accepts is within its domains.
use true_pad.Base.{
  ℕ, ◌≤◌, ◌≡◌, inl, inr, sym, ap, subst, ◌∙◌, true, List, [], ◌∷◌, Option, none, some, arith,
  if◌then◌else◌, Bool-cases, codes, max_safe,
}
use true_pad.Tag.{max_ciphertext_bytes}
use true_pad.Json.Tree.{
  Json, count, string, flag, array, object, other, Members, value_of, safe_count-inv, step,
}
use true_pad.Envelope.{is_hex32}
use true_pad.Store.Head.{
  Rollback, no_witness, separate_state_file, platform_monotonic, remote_monotonic, Verification,
  HeadV2,
}
use true_pad.Store.Text.{string_of, direction_of, count_of}
use true_pad.Store.Header.Shape.{keys_match, require, object_of, exact_object, is_text, is_count_of}
use true_pad.Store.Header.{
  are_declarations, validate_encryption, validate_authentication, validate_policy, is_absolute,
  is_handle, is_nv_name, validate_state_file, validate_platform, is_empty_object, validate_rollback,
  are_attempts, validate_verification, top_keys, pair_id_text, validate_parts, validate_head,
}
use true_pad.Store.Header.Parts.{
  IsPolicy, IsRollback, required, the_same, either, no_part, AreFunds, AreRecords,
  validate_encryption-AreFunds, validate_authentication-AreRecords, validate_policy-IsPolicy,
}

pub record IsHead (h : HeadV2) : Type 0 where
  pub pair_id : is_hex32 h.pair_id ≡ true
  pub offset : h.encryption.next_offset ≤ h.encryption.capacity
  pub capacity : h.encryption.capacity ≤ max_safe
  pub sequence : h.authentication.next_sequence ≤ h.authentication.capacity_records
  pub records : h.authentication.capacity_records ≤ max_safe
  pub limit : h.authentication.verify_attempt_limit ≤ max_safe
  pub max_ciphertext : h.authentication.max_ciphertext ≡ max_ciphertext_bytes
  pub policy : IsPolicy h.record_policy
  pub rollback : IsRollback h.rollback
  pub threshold : h.verification.threshold ≤ max_safe

validate_state_file-IsRollback :
    (ms : Members) (r : Rollback) → validate_state_file ms ≡ some r → IsRollback r
unfolding validate_state_file
validate_state_file-IsRollback ms r h =
    let (_, _, h1) = step (require (keys_match ms (codes "path" ∷ []))) _ r h in
    let (p, _, h2) = step (string_of (value_of (codes "path") ms)) _ r h1 in
    let (b, qb, h3) = step (require (is_absolute p)) _ r h2 in
    subst IsRollback (the_same (separate_state_file p) r h3) (required (is_absolute p) b qb)

validate_platform-IsRollback :
    (ms : Members) (r : Rollback) → validate_platform ms ≡ some r → IsRollback r
unfolding validate_platform
validate_platform-IsRollback ms r h =
    let (_, _, h1) =
      step
        (require (
          keys_match ms (
            codes "provider"
            ∷ codes "statePath"
            ∷ codes "nvIndex"
            ∷ codes "nvName"
            ∷ codes "authorityId"
            ∷ [])))
        _ r h in
    let (_, _, h2) =
      step (require (is_text (value_of (codes "provider") ms) (codes "tpm2-nv-counter-v1"))) _ r
        h1 in
    let (p, _, h3) = step (string_of (value_of (codes "statePath") ms)) _ r h2 in
    let (_, _, h4) = step (require (is_absolute p)) _ r h3 in
    let (x, _, h5) = step (string_of (value_of (codes "nvIndex") ms)) _ r h4 in
    let (_, _, h6) = step (require (is_handle x)) _ r h5 in
    let (y, _, h7) = step (string_of (value_of (codes "nvName") ms)) _ r h6 in
    let (_, _, h8) = step (require (is_nv_name y)) _ r h7 in
    let (z, _, h9) = step (string_of (value_of (codes "authorityId") ms)) _ r h8 in
    let (_, _, h10) = step (require (is_hex32 z)) _ r h9 in
    subst IsRollback (the_same platform_monotonic r h10) tt

validate_rollback-IsRollback :
    (v : Option Json) (r : Rollback) → validate_rollback v ≡ some r → IsRollback r
unfolding validate_rollback
validate_rollback-IsRollback v r h =
    let (ms, _, h1) = step (exact_object (codes "witnessClass" ∷ codes "config" ∷ []) v) _ r h in
    let (config, _, h2) = step (object_of (value_of (codes "config") ms)) _ r h1 in
    let class = value_of (codes "witnessClass") ms in
    either IsRollback (is_text class (codes "none"))
      (if is_empty_object config then some no_witness else none) _ r
      (either IsRollback (is_empty_object config) (some no_witness) none r
        (λ q. subst IsRollback (the_same no_witness r q) tt) (no_part IsRollback r))
      (either IsRollback (is_text class (codes "separate-state-file")) (validate_state_file config)
        _ r (validate_state_file-IsRollback config r)
        (either IsRollback (is_text class (codes "platform-monotonic")) (validate_platform config) _
          r (validate_platform-IsRollback config r)
          (either IsRollback (is_text class (codes "remote-monotonic")) (some remote_monotonic) none
            r (λ q. subst IsRollback (the_same remote_monotonic r q) tt) (no_part IsRollback r))))
      h2

validate_verification-safe :
    (v : Option Json) (x : Verification) → validate_verification v ≡ some x → x.threshold ≤ max_safe
unfolding validate_verification
validate_verification-safe v x h =
    let (ms, _, h1) =
      step
        (exact_object
          (codes "failurePolicy"
            ∷ codes "failureCount"
            ∷ codes "clearedAtFailureCount"
            ∷ codes "perSequenceAttempts"
            ∷ [])
          v)
        _ x h in
    let (policy, _, h2) =
      step
        (exact_object (codes "kind" ∷ codes "threshold" ∷ []) (value_of (codes "failurePolicy") ms))
        _ x h1 in
    let (_, _, h3) =
      step (require (is_text (value_of (codes "kind") policy) (codes "freeze"))) _ x h2 in
    let (t, qt, h4) = step (count_of policy (codes "threshold")) _ x h3 in
    let (_, _, h5) = step (count_of ms (codes "failureCount")) _ x h4 in
    let (_, _, h6) = step (count_of ms (codes "clearedAtFailureCount")) _ x h5 in
    let (a, _, h7) = step (object_of (value_of (codes "perSequenceAttempts") ms)) _ x h6 in
    let (_, _, h8) = step (require (are_attempts a)) _ x h7 in
    subst (λ y. y.threshold ≤ max_safe) (the_same _ x h8)
      (safe_count-inv (value_of (codes "threshold") policy) t qt)

pair_id_text-hex : (v : Option Json) (p : List ℕ) → pair_id_text v ≡ some p → is_hex32 p ≡ true
pair_id_text-hex none p h = absurd (ground arith)
pair_id_text-hex (some (count n)) p h = absurd (ground arith)
pair_id_text-hex (some (flag b)) p h = absurd (ground arith)
pair_id_text-hex (some (array xs)) p h = absurd (ground arith)
pair_id_text-hex (some (object ms)) p h = absurd (ground arith)
pair_id_text-hex (some other) p h = absurd (ground arith)
pair_id_text-hex (some (string u)) p h = elim (Bool-cases (is_hex32 u)) [
  | inl y ↦
      subst (λ x. is_hex32 x ≡ true)
        (the_same u p (ap (λ b. if b then some u else none) (sym y) ∙ h)) y
  | inr n ↦ no_part (λ x. is_hex32 x ≡ true) p (ap (λ b. if b then some u else none) (sym n) ∙ h)
]

validate_parts-IsHead : (ms : Members) (x : HeadV2) → validate_parts ms ≡ some x → IsHead x
unfolding validate_parts AreFunds AreRecords
validate_parts-IsHead ms x h =
    let (p, qp, h1) = step (pair_id_text (value_of (codes "pairId") ms)) _ x h in
    let (d, _, h2) = step (direction_of (value_of (codes "direction") ms)) _ x h1 in
    let (_, _, h3) = step (require (is_text (value_of (codes "mode") ms) (codes "bytes"))) _ x h2 in
    let (_, _, h4) =
      step (require (are_declarations (value_of (codes "sourceDeclarations") ms))) _ x h3 in
    let (e, qe, h5) = step (validate_encryption (value_of (codes "encryption") ms)) _ x h4 in
    let (a, qa, h6) =
      step (validate_authentication (value_of (codes "authentication") ms)) _ x h5 in
    let (r, qr, h7) = step (validate_policy (value_of (codes "recordPolicy") ms)) _ x h6 in
    let (w, qw, h8) = step (validate_rollback (value_of (codes "rollback") ms)) _ x h7 in
    let (v, qv, h9) = step (validate_verification (value_of (codes "verification") ms)) _ x h8 in
    let (e1, e2) = validate_encryption-AreFunds (value_of (codes "encryption") ms) e qe in
    let (a1, a2, a3, a4) =
      validate_authentication-AreRecords (value_of (codes "authentication") ms) a qa in
    subst IsHead (the_same _ x h9) (record {
      pair_id = pair_id_text-hex (value_of (codes "pairId") ms) p qp;
      offset = e1;
      capacity = e2;
      sequence = a1;
      records = a2;
      limit = a3;
      max_ciphertext = a4;
      policy = validate_policy-IsPolicy (value_of (codes "recordPolicy") ms) r qr;
      rollback = validate_rollback-IsRollback (value_of (codes "rollback") ms) w qw;
      threshold = validate_verification-safe (value_of (codes "verification") ms) v qv;
    })

-- A header that is accepted is within its domains: the pair id is hex, the counters are within their
-- capacities and those are safe integers, the ciphertext bound is the format's, a fixed record size is
-- a multiple of sixteen within its bounds, and a witness file has an absolute path.
pub validate_head-IsHead : (j : Json) (h : HeadV2) → validate_head j ≡ some h → IsHead h
unfolding validate_head
validate_head-IsHead (count n) x h = absurd (ground arith)
validate_head-IsHead (string u) x h = absurd (ground arith)
validate_head-IsHead (flag b) x h = absurd (ground arith)
validate_head-IsHead (array xs) x h = absurd (ground arith)
validate_head-IsHead other x h = absurd (ground arith)
validate_head-IsHead (object ms) x h =
    let (_, _, h1) = step (require (keys_match ms top_keys)) _ x h in
    let (_, _, h2) = step (require (is_count_of (value_of (codes "formatVersion") ms) 2)) _ x h1 in
    validate_parts-IsHead ms x h2
