-- ===== src/Store/Head.antt =====
-- The header of a direction store, `HeadV2` of src/cli/v2/store2.ts, without the source
-- declarations, which no operation reads. A text is the list of its code units.
use true_pad.Direction.{Direction}
use true_pad.Base.{ℕ, List}

pub data RecordSpec : Type 0 where
  variable : RecordSpec
  fixed : (bytes : ℕ) → RecordSpec

-- The rollback class; a witness file is named by its path.
pub data Rollback : Type 0 where
  no_witness : Rollback
  separate_state_file : (path : List ℕ) → Rollback
  platform_monotonic : Rollback
  remote_monotonic : Rollback

pub record Encryption : Type 0 where
  pub capacity : ℕ
  pub next_offset : ℕ

pub record Authentication : Type 0 where
  pub capacity_records : ℕ
  pub next_sequence : ℕ
  pub verify_attempt_limit : ℕ
  pub max_ciphertext : ℕ
  pub max_auth_lookahead : ℕ

-- `per_sequence_attempts` is 0 where the source's record has no key.
pub record Verification : Type 0 where
  pub threshold : ℕ
  pub failure_count : ℕ
  pub cleared_at_failure_count : ℕ
  pub per_sequence_attempts : ℕ → ℕ

pub record HeadV2 : Type 0 where
  pub pair_id : List ℕ
  pub direction : Direction
  pub encryption : Encryption
  pub authentication : Authentication
  pub record_policy : RecordSpec
  pub rollback : Rollback
  pub verification : Verification
