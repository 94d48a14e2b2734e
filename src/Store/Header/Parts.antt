-- ===== src/Store/Header/Parts.antt =====
-- What `validateHead` of src/cli/v2/store2.ts accepts for the budgets, the records and the policy.
use true_pad.Base.{
  ◌%◌, ◌≤◌, ◌≡◌, refl, ap, subst, true, false, [], ◌∷◌, ◌++◌, Bool, Option, none, some, arith, leb,
  if◌then◌else◌, codes, max_safe,
}
use true_pad.Base.{leb→le}
use true_pad.Tag.{max_ciphertext_bytes}
use true_pad.Json.Tree.{Json, Members, value_of, safe_count-inv, step}
use true_pad.Store.Head.{
  RecordSpec, variable, fixed, Rollback, no_witness, separate_state_file, platform_monotonic,
  remote_monotonic, Encryption, Authentication,
}
use true_pad.Store.Text.{count_of}
use true_pad.Store.Header.Shape.{
  own, keys_match, require, object_of, exact_object, is_text, is_count_of, is_false,
}
use true_pad.Store.Header.{
  validate_encryption, auth_keys, validate_authentication, is_record_size, validate_fixed,
  validate_variable, validate_record, validate_policy, is_absolute,
}

-- The record policies: a fixed size is a multiple of sixteen within its bounds.
abbrev pub IsPolicy : RecordSpec → Type 0
IsPolicy variable = Unit
IsPolicy (fixed f) = (32 ≤ f) × (f ≤ max_ciphertext_bytes) × (f % 16 ≡ 0)

-- A witness file is named by an absolute path.
abbrev pub IsRollback : Rollback → Type 0
IsRollback (separate_state_file path) = is_absolute path ≡ true
IsRollback no_witness = Unit
IsRollback platform_monotonic = Unit
IsRollback remote_monotonic = Unit

pub required : (b c : Bool) → require b ≡ some c → b ≡ true
required true c h = refl
required false c h = absurd (ground arith)

pub the_same : {A : Type 0} (a b : A) → some a ≡ some b → a ≡ b
the_same a b h = ap (λ o. elim o [ some x ↦ x | none ↦ a ]) h

unfoldable pub AreFunds : Encryption → Type 0
AreFunds e = (e.next_offset ≤ e.capacity) × (e.capacity ≤ max_safe)

pub validate_encryption-AreFunds :
    (v : Option Json) (e : Encryption) → validate_encryption v ≡ some e → AreFunds e
unfolding validate_encryption AreFunds
validate_encryption-AreFunds v e h =
    let (ms, _, h1) = step (exact_object (codes "capacity" ∷ codes "nextOffset" ∷ []) v) _ e h in
    let (c, qc, h2) = step (count_of ms (codes "capacity")) _ e h1 in
    let (o, _, h3) = step (count_of ms (codes "nextOffset")) _ e h2 in
    let (b, qb, h4) = step (require (leb o c)) _ e h3 in
    subst AreFunds (the_same (record { capacity = c; next_offset = o }) e h4)
      (leb→le o c (required (leb o c) b qb), safe_count-inv (value_of (codes "capacity") ms) c qc)

unfoldable pub AreRecords : Authentication → Type 0
AreRecords a =
    (a.next_sequence ≤ a.capacity_records)
    × (a.capacity_records ≤ max_safe)
    × (a.verify_attempt_limit ≤ max_safe)
    × (a.max_ciphertext ≡ max_ciphertext_bytes)

pub validate_authentication-AreRecords :
    (v : Option Json) (a : Authentication) → validate_authentication v ≡ some a → AreRecords a
unfolding validate_authentication AreRecords
validate_authentication-AreRecords v a h =
    let (ms, _, h1) = step (exact_object auth_keys v) _ a h in
    let (_, _, h2) =
      step (require (is_text (value_of (codes "profile") ms) (codes "wc-one-time-v1"))) _ a h1 in
    let (_, _, h3) = step (require (is_count_of (value_of (codes "tagBits") ms) 128)) _ a h2 in
    let (r, qr, h4) = step (count_of ms (codes "capacityRecords")) _ a h3 in
    let (n, _, h5) = step (count_of ms (codes "nextSequence")) _ a h4 in
    let (b, qb, h6) = step (require (leb n r)) _ a h5 in
    let (l, ql, h7) = step (count_of ms (codes "verifyAttemptLimit")) _ a h6 in
    let (k, _, h8) = step (count_of ms (codes "maxAuthLookahead")) _ a h7 in
    let (_, _, h9) =
      step (require (is_count_of (value_of (codes "maxCiphertextBytes") ms) max_ciphertext_bytes)) _
        a h8 in
    subst AreRecords (the_same _ a h9) (
      leb→le n r (required (leb n r) b qb),
      safe_count-inv (value_of (codes "capacityRecords") ms) r qr,
      safe_count-inv (value_of (codes "verifyAttemptLimit") ms) l ql,
      refl,
    )

validate_fixed-IsPolicy : (ms : Members) (r : RecordSpec) → validate_fixed ms ≡ some r → IsPolicy r
unfolding validate_fixed
validate_fixed-IsPolicy ms r h =
    let (_, _, h1) = step (require (keys_match ms (codes "kind" ∷ codes "bytes" ∷ []))) _ r h in
    let (f, _, h2) = step (count_of ms (codes "bytes")) _ r h1 in
    let (b, qb, h3) = step (require (is_record_size f)) _ r h2 in
    let q : is_record_size f ≡ true = required (is_record_size f) b qb in
    subst IsPolicy (the_same (fixed f) r h3) (ground arith, ground arith, ground arith)

validate_variable-IsPolicy :
    (ms : Members) (r : RecordSpec) → validate_variable ms ≡ some r → IsPolicy r
unfolding validate_variable
validate_variable-IsPolicy ms r h =
    let (_, _, h1) = step (require (keys_match ms (codes "kind" ∷ []))) _ r h in
    subst IsPolicy (the_same variable r h1) tt

-- A choice between two parts that both give a sound one.
pub either :
    {A : Type 0} (P : A → Type 0) (b : Bool) (x y : Option A) (a : A)
    → (x ≡ some a → P a)
    → (y ≡ some a → P a)
    → (if b then x else y) ≡ some a
    → P a
either P true x y a f g h = f h
either P false x y a f g h = g h

pub no_part : {A : Type 0} (P : A → Type 0) (a : A) → none ≡ some a → P a
no_part P a h = absurd (ground arith)

validate_record-IsPolicy :
    (v : Option Json) (r : RecordSpec) → validate_record v ≡ some r → IsPolicy r
unfolding validate_record
validate_record-IsPolicy v r h =
    let (ms, _, h1) = step (object_of v) _ r h in
    let kind = value_of (codes "kind") ms in
    either IsPolicy (is_text kind (codes "variable")) (validate_variable ms) _ r
      (validate_variable-IsPolicy ms r)
      (either IsPolicy (is_text kind (codes "fixed")) (validate_fixed ms) none r
        (validate_fixed-IsPolicy ms r) (no_part IsPolicy r))
      h1

pub validate_policy-IsPolicy :
    (v : Option Json) (r : RecordSpec) → validate_policy v ≡ some r → IsPolicy r
unfolding validate_policy
validate_policy-IsPolicy v r h =
    let (ms, _, h1) = step (object_of v) _ r h in
    let keys = codes "authenticated" ∷ codes "downgradeAllowed" ∷ [] in
    let given = own ms (codes "record") in
    let (_, _, h2) =
      step (require (keys_match ms (if given then keys ++ codes "record" ∷ [] else keys))) _ r h1 in
    let (_, _, h3) =
      step (require (is_text (value_of (codes "authenticated") ms) (codes "required"))) _ r h2 in
    let (_, _, h4) = step (require (is_false (value_of (codes "downgradeAllowed") ms))) _ r h3 in
    either IsPolicy given (validate_record (value_of (codes "record") ms)) (some variable) r
      (validate_record-IsPolicy (value_of (codes "record") ms) r)
      (λ q. subst IsPolicy (the_same variable r q) tt) h4
