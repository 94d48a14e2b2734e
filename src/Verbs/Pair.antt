-- ===== src/Verbs/Pair.antt =====
-- A loaded pair, its directions by role, and the freeze, src/cli/v2/truepad2.ts.
use true_pad.Direction.{Direction, a_to_b, b_to_a}
use true_pad.Store.Load.{LoadedStore}
use true_pad.Verbs.Outcome.{Outcome, check, frozen}
use true_pad.Base.{◌+◌, ◌||◌, Bool, leb}

pub data Party : Type 0 where
  party_a party_b : Party

pub data Use : Type 0 where
  burning opening : Use

-- `directionFor2`.
unfoldable pub direction_for : Party → Use → Direction
direction_for party_a burning = a_to_b
direction_for party_b burning = b_to_a
direction_for party_a opening = b_to_a
direction_for party_b opening = a_to_b

pub record LoadedPair : Type 0 where
  pub ab : LoadedStore
  pub ba : LoadedStore

unfoldable pub half : LoadedPair → Direction → LoadedStore
half pair a_to_b = pair.ab
half pair b_to_a = pair.ba

-- `failureCount - clearedAtFailureCount >= threshold`, where the difference may be negative.
unfoldable pub frozen_half : LoadedStore → Bool
frozen_half store =
    leb (store.head.verification.threshold + store.effective.cleared_at_failure_count)
      store.effective.failure_count

unfoldable pub require_not_frozen : LoadedPair → Outcome Unit
require_not_frozen pair = check (frozen_half pair.ab || frozen_half pair.ba) frozen
