-- ===== src/Verbs/History.antt =====
-- The life of one direction's directory: the verbs of src/cli/v2/truepad2.ts one after another, each
-- of them complete or cut off by a crash between two of its writes.
pub mod NoReuse
pub mod Attempts
use true_pad.Direction.{Direction}
use true_pad.Store.Load.{Dir, LoadedStore, load_store}
use true_pad.Store.Write.{Write, run}
use true_pad.Verbs.Outcome.{Reason, released, writes_of}
use true_pad.Verbs.Pair.{Party, burning, opening, direction_for, LoadedPair, half}
use true_pad.Verbs.Witness.{Witness}
use true_pad.Envelope.{EnvelopeV2}
use true_pad.Verbs.Burn.{burn}
use true_pad.Verbs.Open.{open_envelope}
use true_pad.Verbs.Operator.{retire, clear_freeze_half}
use true_pad.Base.{
  ℕ, zero, suc, ◌+◌, ◌-◌, ◌*◌, ◌/◌, ◌%◌, ◌^◌, ◌≤◌, ◌<◌, ◌≡◌, ◌≢◌, ◌↔◌, ◌⊎◌, inl, inr, refl, sym, ap,
  ap₂, subst, ◌∙◌, bit_and, bit_or, bit_xor, true, false, not, ◌&&◌, ◌||◌, List, [], ◌∷◌, ◌++◌,
  Bool, Option, none, some, arith, Bytes, IsByte, IsBytes, All, length, take, drop, replicate,
  get_elem?, get_or, ◌==◌, ltb, leb, if◌then◌else◌, min, max, Bool-cases, Option-cases, codes,
  max_safe, same, append-nil, append_assoc, map,
}

-- The writes that a verb makes to the directory of a direction.
pub data VerbWrites (pair : LoadedPair) : Direction → List Write → Type 0 where
  by_burn :
      (role : Party) (p : Bytes) (w : Witness) (secret : Bytes)
      → VerbWrites pair (direction_for role burning) (writes_of (burn role p w secret pair))
  by_open :
      (role : Party) (decoded : Reason ⊎ EnvelopeV2) (w : Witness) (secret : Bytes)
      → VerbWrites pair
          (direction_for role opening)
          (writes_of (open_envelope role decoded w secret pair))
  by_retire :
      (d : Direction) (through : ℕ) (offset : Option ℕ) (reason : List ℕ) (w : Witness)
      → VerbWrites pair d (writes_of (retire d through offset reason w pair))
  by_clear_freeze : (d : Direction) → VerbWrites pair d (clear_freeze_half (half pair d))

-- From the directory `s` to the directory `t`, with the envelopes given out by `burn` on the way, the
-- last one first. A verb that is cut off gives out nothing.
pub data History (s : Dir) : List EnvelopeV2 → Dir → Type 0 where
  started : History s [] s
  sent :
      (es : List EnvelopeV2) (t : Dir) (pair : LoadedPair) (role : Party) (p : Bytes) (w : Witness)
      (secret : Bytes) (e : EnvelopeV2) (ws : List Write)
      → History s es t
      → load_store t ≡ inr (half pair (direction_for role burning))
      → burn role p w secret pair ≡ released e ws
      → History s (e ∷ es) (run t ws)
  cut :
      (es : List EnvelopeV2) (t : Dir) (pair : LoadedPair) (d : Direction) (ws : List Write) (n : ℕ)
      → History s es t
      → load_store t ≡ inr (half pair d)
      → VerbWrites pair d ws
      → History s es (run t (take n ws))

-- How many verbs have run.
unfoldable pub verbs_run : {s : Dir} {es : List EnvelopeV2} {t : Dir} → History s es t → ℕ
verbs_run started = 0
verbs_run (sent es t pair role p w secret e ws before_it g b) = verbs_run before_it + 1
verbs_run (cut es t pair d ws n before_it g v) = verbs_run before_it + 1
