-- ===== src/Verbs/Outcome.antt =====
-- What a verb of src/cli/v2/truepad2.ts ends with, and the writes that it has made durable by then.
use true_pad.Store.Write.{Write}
use true_pad.Base.{
  ◌≡◌, refl, sym, ap, subst, ◌∙◌, true, false, List, [], ◌++◌, Bool, Option, none, some, arith,
}

-- The refusals of src/cli/v2/truepad2.ts that these verbs give.
pub data Reason : Type 0 where
  frozen witness_unsupported witness_unreachable witness_inconsistent witness_regressed : Reason
  locked corrupt_head record_size_mismatch oversize_ciphertext auth_exhausted : Reason
  encryption_exhausted wrong_pair wrong_direction sequence_retired sequence_malformed : Reason
  sequence_out_of_window offset_retired sequence_contested auth_failed : Reason
  envelope_v1 malformed_envelope : Reason

-- A refusal by name (`Refused2`), a plain error, or a result that is given out.
pub data Outcome (A : Type 0) : Type 0 where
  refused : (reason : Reason) → (writes : List Write) → Outcome A
  failed : (writes : List Write) → Outcome A
  released : (result : A) → (writes : List Write) → Outcome A

-- A write that precedes whatever follows.
unfoldable pub before : {A : Type 0} → List Write → Outcome A → Outcome A
before ws (refused reason vs) = refused reason (ws ++ vs)
before ws (failed vs) = failed (ws ++ vs)
before ws (released a vs) = released a (ws ++ vs)

infixl 5 ◌>>=◌
unfoldable pub ◌>>=◌ : {A B : Type 0} → Outcome A → (A → Outcome B) → Outcome B
refused reason ws >>= f = refused reason ws
failed ws >>= f = failed ws
released a ws >>= f = before ws (f a)

abbrev pub proceed : Outcome Unit
proceed = released tt []

-- `if (test) throw new Refused2(reason, ...)`.
unfoldable pub check : Bool → Reason → Outcome Unit
check true reason = refused reason []
check false reason = proceed

-- A call that throws where it gives `none`.
unfoldable pub attempt : {A : Type 0} → Option A → Outcome A
attempt none = failed []
attempt (some a) = released a []

abbrev pub durable : List Write → Outcome Unit
durable ws = released tt ws

unfoldable pub writes_of : {A : Type 0} → Outcome A → List Write
writes_of (refused reason ws) = ws
writes_of (failed ws) = ws
writes_of (released a ws) = ws

pub writes_of-before :
    {A : Type 0} (ws : List Write) (o : Outcome A) → writes_of (before ws o) ≡ ws ++ writes_of o
unfolding writes_of before
writes_of-before ws (refused reason vs) = refl
writes_of-before ws (failed vs) = refl
writes_of-before ws (released a vs) = refl

pub before_none : {A : Type 0} (o : Outcome A) → before [] o ≡ o
unfolding before
before_none (refused reason vs) = refl
before_none (failed vs) = refl
before_none (released a vs) = refl

-- A part of a verb that writes nothing: what follows it decides the writes.
pub after_free :
    {A B : Type 0} (P : List Write → Type 0) (o : Outcome A) (f : A → Outcome B)
    → P []
    → writes_of o ≡ []
    → ((a : A) → o ≡ released a [] → P (writes_of (f a)))
    → P (writes_of (o >>= f))
unfolding writes_of ◌>>=◌
after_free P (refused reason ws) f p e k = subst P (sym e) p
after_free P (failed ws) f p e k = subst P (sym e) p
after_free P (released a ws) f p e k =
    subst P (sym (writes_of-before ws (f a) ∙ ap (λ v. v ++ writes_of (f a)) e))
      (k a (ap (released a) e))

before_released_inv :
    {A : Type 0} (ws us : List Write) (o : Outcome A) (b : A)
    → before ws o ≡ released b us
    → (vs : List Write) × (o ≡ released b vs) × (us ≡ ws ++ vs)
unfolding before
before_released_inv ws us (refused reason vs) b h = ground arith
before_released_inv ws us (failed vs) b h = ground arith
before_released_inv ws us (released a vs) b h = (vs, ground arith, ground arith)

pub bind_released_inv :
    {A B : Type 0} (o : Outcome A) (f : A → Outcome B) (b : B) (us : List Write)
    → (o >>= f) ≡ released b us
    → (a : A) × (ws vs : List Write) × (o ≡ released a ws) × (f a ≡ released b vs) × (us ≡ ws ++ vs)
unfolding ◌>>=◌
bind_released_inv (refused reason ws) f b us h = ground arith
bind_released_inv (failed ws) f b us h = ground arith
bind_released_inv (released a ws) f b us h =
    let (vs, e, w) = before_released_inv ws us (f a) b h in (a, ws, vs, refl, e, w)

pub check-released :
    (b : Bool) (reason : Reason) (ws : List Write) → check b reason ≡ released tt ws → b ≡ false
unfolding check
check-released true reason ws h = ground arith
check-released false reason ws h = refl

pub attempt-released :
    {A : Type 0} (o : Option A) (a : A) (ws : List Write)
    → attempt o ≡ released a ws
    → (o ≡ some a) × (ws ≡ [])
unfolding attempt
attempt-released none a ws h = ground arith
attempt-released (some b) a ws h = ground arith

pub writes_of-check : (b : Bool) (reason : Reason) → writes_of (check b reason) ≡ []
unfolding writes_of check
writes_of-check true reason = refl
writes_of-check false reason = refl

pub writes_of-attempt : {A : Type 0} (o : Option A) → writes_of (attempt o) ≡ []
unfolding writes_of attempt
writes_of-attempt none = refl
writes_of-attempt (some a) = refl

pub writes_of-bind :
    {A B : Type 0} (o : Outcome A) (f : A → Outcome B)
    → writes_of o ≡ []
    → ((a : A) → writes_of (f a) ≡ [])
    → writes_of (o >>= f) ≡ []
writes_of-bind o f e k = after_free (λ ws. ws ≡ []) o f refl e (λ a _. k a)

-- A guard that has let the rest run.
pub check_then_inv :
    {A : Type 0} (b : Bool) (reason : Reason) (f : Unit → Outcome A) (a : A) (ws : List Write)
    → (check b reason >>= f) ≡ released a ws
    → (b ≡ false) × (f tt ≡ released a ws)
unfolding check ◌>>=◌
check_then_inv true reason f a ws h = ground arith
check_then_inv false reason f a ws h = (refl, sym (before_none (f tt)) ∙ h)

-- A part that writes nothing, of a verb that gives a result.
pub bind_free_inv :
    {A B : Type 0} (o : Outcome A) (f : A → Outcome B) (b : B) (us : List Write)
    → writes_of o ≡ []
    → (o >>= f) ≡ released b us
    → (a : A) × (o ≡ released a []) × (f a ≡ released b us)
unfolding ◌>>=◌ writes_of
bind_free_inv (refused reason ws) f b us e h = ground arith
bind_free_inv (failed ws) f b us e h = ground arith
bind_free_inv (released a ws) f b us e h =
    (a, ap (released a) e, sym (ap (λ v. before v (f a)) e ∙ before_none (f a)) ∙ h)

pub released-injective :
    {A : Type 0} (a b : A) (ws vs : List Write)
    → released a ws ≡ released b vs
    → (a ≡ b) × (ws ≡ vs)
released-injective a b ws vs h = (ground arith, ground arith)

pub released_then :
    {A B : Type 0} (o : Outcome A) (f : A → Outcome B) (a : A) (ws : List Write)
    → o ≡ released a ws
    → (o >>= f) ≡ before ws (f a)
unfolding ◌>>=◌
released_then o f a ws e = ap (λ x. x >>= f) e

pub free_then :
    {A B : Type 0} (o : Outcome A) (f : A → Outcome B) (a : A) → o ≡ released a [] → (o >>= f) ≡ f a
free_then o f a e = released_then o f a [] e ∙ before_none (f a)

pub check_then :
    {A : Type 0} (b : Bool) (reason : Reason) (f : Unit → Outcome A)
    → b ≡ false
    → (check b reason >>= f) ≡ f tt
unfolding check
check_then b reason f e = free_then (check b reason) f tt (ap (λ x. check x reason) e)

pub check_passes : (b : Bool) (reason : Reason) → b ≡ false → check b reason ≡ proceed
unfolding check
check_passes b reason e = ap (λ x. check x reason) e
