-- ===== src/Verbs/History/NoReuse.antt =====
-- No pad byte and no authentication record serves twice.
use true_pad.Direction.{Direction}
use true_pad.Store.Head.{HeadV2}
use true_pad.Store.Load.{Dir, LoadedStore, effective_state, load_store}
use true_pad.Store.Write.{Write, run, commit_advance}
use true_pad.Store.Appended.{load_store_inv, load_store-Opens, loaded_of}
use true_pad.Store.Safe.{
  IsForward, IsForward-refl, IsForward-trans, IsSafe, load_store-prefix, load_store-counters,
}
use true_pad.Store.Crash.{IsAdvance, committed_Opens}
use true_pad.Store.Journal.{take_record, raise_marks}
use true_pad.Verbs.Outcome.{released}
use true_pad.Verbs.Pair.{Party, burning, direction_for, LoadedPair, half}
use true_pad.Verbs.Witness.{Witness}
use true_pad.Envelope.{EnvelopeV2}
use true_pad.Verbs.Burn.{burn, sent_head, sent_line}
use true_pad.Verbs.Safe.{IsLoaded, burn-IsSafe, sent-IsSafe}
use true_pad.Verbs.Safe.Opening.{open_envelope-IsSafe}
use true_pad.Verbs.Safe.Retiring.{retire-IsSafe, clear_freeze_half-IsSafe}
use true_pad.Verbs.Sent.{burn_inv}
use true_pad.Verbs.History.{
  VerbWrites, by_burn, by_open, by_retire, by_clear_freeze, History, started, sent, cut, verbs_run,
}
use true_pad.Base.{
  ◌+◌, ◌≤◌, ◌<◌, ◌≡◌, inr, ap, subst, ◌∙◌, List, [], ◌∷◌, arith, Bytes, All, length, max_safe,
}

-- The material of an envelope lies below a header's counters.
abbrev pub IsBelow : HeadV2 → EnvelopeV2 → Type 0
IsBelow head e =
    (e.sequence < head.authentication.next_sequence)
    × (e.start_offset + e.ciphertext_length ≤ head.encryption.next_offset)

-- The material of `e` lies past that of `f`: its record's number is higher, and its window of the
-- pad starts where that of `f` has ended, or later.
abbrev pub IsPast : EnvelopeV2 → EnvelopeV2 → Type 0
IsPast e f = (f.sequence < e.sequence) × (f.start_offset + f.ciphertext_length ≤ e.start_offset)

-- Every envelope lies past all that were given out before it.
abbrev pub IsFresh : List EnvelopeV2 → Type 0
IsFresh [] = Unit
IsFresh (e ∷ es) = All (IsPast e) es × IsFresh es

pub loaded : (d : Dir) (l : LoadedStore) → load_store d ≡ inr l → IsLoaded l
loaded d l h =
    let (s, o, v, f) = load_store-counters d l h in
    record { sequence_eq = s; offset_eq = o; head_valid = v; failures_le = f }

pub VerbWrites-IsSafe :
    (pair : LoadedPair) (d : Direction) (ws : List Write)
    → VerbWrites pair d ws
    → IsLoaded (half pair d)
    → (half pair d).effective.failure_count < max_safe
    → IsSafe
        ((half pair d).effective.failure_count + 1)
        (half pair d).effective.failure_count
        (half pair d).head
        ws
VerbWrites-IsSafe pair _ _ (by_burn role p w secret) l b =
    burn-IsSafe _ role p w secret pair l (omega arith)
VerbWrites-IsSafe pair _ _ (by_open role decoded w secret) l b =
    open_envelope-IsSafe role decoded w secret pair l b
VerbWrites-IsSafe pair _ _ (by_retire d through offset reason w) l b =
    retire-IsSafe _ d through offset reason w pair l (omega arith)
VerbWrites-IsSafe pair _ _ (by_clear_freeze d) l b =
    clear_freeze_half-IsSafe _ (half pair d) l (omega arith) (omega arith)

IsBelow-forward :
    (a b : HeadV2) (es : List EnvelopeV2) → IsForward a b → All (IsBelow a) es → All (IsBelow b) es
IsBelow-forward a b [] f h = tt
IsBelow-forward a b (e ∷ es) f h =
    let p = f.sequence_up in
    let q = f.offset_up in
    let x = h.0.0 in let y = h.0.1 in ((omega arith, omega arith), IsBelow-forward a b es f h.1)

below-IsPast :
    (a : HeadV2) (e : EnvelopeV2) (es : List EnvelopeV2)
    → a.authentication.next_sequence ≡ e.sequence
    → a.encryption.next_offset ≡ e.start_offset
    → All (IsBelow a) es
    → All (IsPast e) es
below-IsPast a e [] p q h = tt
below-IsPast a e (f ∷ es) p q h =
    let x = h.0.0 in let y = h.0.1 in ((omega arith, omega arith), below-IsPast a e es p q h.1)

-- Once a burn that gives out an envelope is complete, on a directory that loaded with the store that it
-- ran on, the directory loads again. The envelope has the record and the start of the window at which
-- the counters stood before; they now stand one past the record and at the end of the window. The
-- budgets are the same, and no more failures are counted than before.
pub load_store-burn :
    (t : Dir) (pair : LoadedPair) (role : Party) (p : Bytes) (w : Witness) (secret : Bytes)
    (e : EnvelopeV2) (ws : List Write)
    → load_store t ≡ inr (half pair (direction_for role burning))
    → burn role p w secret pair ≡ released e ws
    → (m : LoadedStore) × (load_store (run t ws) ≡ inr m)
      × IsForward (half pair (direction_for role burning)).head m.head
      × (m.head.authentication.next_sequence ≡ e.sequence + 1)
      × (m.head.encryption.next_offset ≡ e.start_offset + e.ciphertext_length)
      × ((half pair (direction_for role burning)).head.authentication.next_sequence ≡ e.sequence)
      × ((half pair (direction_for role burning)).head.encryption.next_offset ≡ e.start_offset)
      × (m.effective.failure_count
          ≤ (half pair (direction_for role burning)).effective.failure_count)
unfolding IsSafe commit_advance effective_state take_record raise_marks
load_store-burn t pair role p w secret e ws h b =
    let store = half pair (direction_for role burning) in
    let x = burn_inv role p w secret pair e ws b in
    let y = x.staged in
    let c = length x.payload in
    let (j, o, same_effect) = load_store_inv t store h in
    let few = ap (λ x. x.effective.failure_count) same_effect in
    let counters = loaded t store h in
    let (f, valid_new, _, (v, _, _)) =
      sent-IsSafe store.effective.failure_count store c counters (omega arith) x.record_left
        x.window_fits in
    let advance : IsAdvance store.head (sent_head store c) (sent_line store c) = record {
      same_capacity = f.same_capacity;
      same_records = f.same_records;
      new_valid = valid_new;
      sequence_up = f.sequence_up;
      offset_up = f.offset_up;
      line_safe = v.line_safe;
      line_sequence = v.sequence_covered;
      line_offset = v.offset_covered;
    } in
    let k = take_record j (sent_line store c) in
    let opens = committed_Opens t store.head (sent_head store c) j (sent_line store c) o advance in
    let a = counters.sequence_eq in
    let b' = counters.offset_eq in
    let sq = y.sequence_eq in
    let st = y.start_eq in
    let ln = y.length_eq in
    (
      loaded_of (sent_head store c) k,
      ap (λ v'. load_store (run t v')) x.writes_eq
          ∙ load_store-Opens (run t (commit_advance (sent_head store c) (sent_line store c)))
              (sent_head store c) k opens,
      f,
      omega arith,
      omega arith,
      omega arith,
      omega arith,
      omega arith,
    )

pub same_store : (t : Dir) (a b : LoadedStore) → load_store t ≡ inr a → load_store t ≡ inr b → a ≡ b
same_store t a b p q = ground arith

-- From a directory that loads, whatever verbs run on it and wherever each is cut off between two of its
-- writes, as long as the failures counted at the start and the number of verbs are a safe integer
-- together: it still loads, with the same budgets, neither the next sequence nor the next offset has
-- gone back, and at most one failure is counted for each verb. Every envelope that was given out has an
-- authentication record and a window of the pad that lie past those of all earlier ones and below the
-- counters.
pub History-no_reuse :
    (s : Dir) (l : LoadedStore) (es : List EnvelopeV2) (t : Dir)
    → load_store s ≡ inr l
    → (h : History s es t) → l.effective.failure_count + verbs_run h ≤ max_safe
    → (m : LoadedStore) × (load_store t ≡ inr m)
      × IsForward l.head m.head
      × (m.effective.failure_count ≤ l.effective.failure_count + verbs_run h)
      × All (IsBelow m.head) es
      × IsFresh es
unfolding verbs_run
History-no_reuse s l _ _ h started few = (l, h, IsForward-refl l.head, omega arith, tt, tt)
History-no_reuse s l _ _ h (sent es t pair role p w secret e ws before_it g b) few =
    let store = half pair (direction_for role burning) in
    let (k, loads, f, fails, b', fresh) = History-no_reuse s l es t h before_it (omega arith) in
    let same_k = same_store t k store loads g in
    let fails' =
      subst (λ x. x.effective.failure_count ≤ l.effective.failure_count + verbs_run before_it)
        same_k fails in
    let (m, done, up, above_sq, above_of, sq, st, same_fails) =
      load_store-burn t pair role p w secret e ws g b in
    let old : All (IsBelow store.head) es = subst (λ x. All (IsBelow x.head) es) same_k b' in
    (
      m,
      done,
      IsForward-trans l.head store.head m.head (subst (λ x. IsForward l.head x.head) same_k f) up,
      omega arith,
      ((omega arith, omega arith), IsBelow-forward store.head m.head es up old),
      (below-IsPast store.head e es sq st old, fresh),
    )
History-no_reuse s l _ _ h (cut es t pair d ws n before_it g v) few =
    let store = half pair d in
    let (k, loads, f, fails, b', fresh) = History-no_reuse s l es t h before_it (omega arith) in
    let same_k = same_store t k store loads g in
    let fails' =
      subst (λ x. x.effective.failure_count ≤ l.effective.failure_count + verbs_run before_it)
        same_k fails in
    let (m, done, up, new_fails) =
      load_store-prefix (store.effective.failure_count + 1) t store n ws g (omega arith)
        (VerbWrites-IsSafe pair d ws v (loaded t store g) (omega arith)) in
    (
      m,
      done,
      IsForward-trans l.head store.head m.head (subst (λ x. IsForward l.head x.head) same_k f) up,
      omega arith,
      IsBelow-forward store.head m.head es up (subst (λ x. All (IsBelow x.head) es) same_k b'),
      fresh,
    )
