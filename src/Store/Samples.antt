-- ===== src/Store/Samples.antt =====
-- A small store: 24 bytes for encryption and two records, in each direction.
use true_pad.Direction.{a_to_b}
use true_pad.Store.Head.{HeadV2, variable, no_witness}
use true_pad.Store.Journal.{init_line}
use true_pad.Store.Load.{Dir, spelled, LoadedStore}
use true_pad.Base.{ℕ, false, [], ◌∷◌, ◌++◌, some, Bytes, replicate, codes}

abbrev pub sample_head : HeadV2
sample_head = record {
  pair_id = codes "000102030405060708090a0b0c0d0e0f";
  direction = a_to_b;
  encryption = record { capacity = 24; next_offset = 0 };
  authentication = record {
    capacity_records = 2;
    next_sequence = 0;
    verify_attempt_limit = 8;
    max_ciphertext = 1048576;
    max_auth_lookahead = 64;
  };
  record_policy = variable;
  rollback = no_witness;
  verification = record {
    threshold = 32;
    failure_count = 0;
    cleared_at_failure_count = 0;
    per_sequence_attempts = λ sequence. 0;
  };
}

abbrev pub sample_secret : Bytes
sample_secret = replicate {A = ℕ} 40 201 ++ replicate {A = ℕ} 48 54

abbrev pub sample_dir : Dir
sample_dir = record {
  head = spelled sample_head;
  secret = some sample_secret;
  journal = some (some (init_line sample_head.pair_id a_to_b 24 2) ∷ []);
  v1_pad = false;
}

abbrev pub sample_store : LoadedStore
sample_store = record {
  head = sample_head;
  effective = record {
    next_offset = 0;
    next_sequence = 0;
    attempts = λ sequence. 0;
    attempts_reserved = 0;
    failure_count = 0;
    cleared_at_failure_count = 0;
  };
}
