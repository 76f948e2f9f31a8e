-- ===== src/Machine/Monad.antt =====
-- C++ functions that change a state and may throw. The state survives the exception, as it does
-- in the source: what a function did before it threw stays done.

use mathlib.Core.Path.{◌≡◌, refl}

-- The exceptions that the code throws by name.
pub data Exception : Type 0 where
  bad_alloc bad_array_new_length out_of_range invalid_argument : Exception

pub data Outcome (A : Type 0) : Type 0 where
  ok : A → Outcome A
  throw : Exception → Outcome A

abbrev pub M : Type 0 → Type 0 → Type 0
M S A = S → Outcome A × S

module _ {S : Type 0} where
  abbrev pub pure : {A : Type 0} → A → M S A
  pure a s = (ok a, s)

  abbrev pub raise : {A : Type 0} → Exception → M S A
  raise e s = (throw e, s)

  abbrev pub and_then : {A B : Type 0} → Outcome A × S → (A → M S B) → Outcome B × S
  and_then (ok a, s) f = f a s
  and_then (throw e, s) f = (throw e, s)

  infixl 5 ◌>>=◌ ◌>>◌
  abbrev pub ◌>>=◌ : {A B : Type 0} → M S A → (A → M S B) → M S B
  m >>= f = λ s. and_then (m s) f

  abbrev pub ◌>>◌ : {A B : Type 0} → M S A → M S B → M S B
  m >> k = m >>= λ _. k

  -- A function that reads no state.
  abbrev pub lift : {A : Type 0} → Outcome A → M S A
  lift o s = (o, s)

  -- Reads the state.
  abbrev pub get : {A : Type 0} → (S → A) → M S A
  get f s = (ok (f s), s)

  -- Changes the state.
  abbrev pub modify : (S → S) → M S (Unit {0})
  modify f s = (ok tt, f s)

  -- `try { m } catch (...) {}`.
  abbrev pub swallow : M S (Unit {0}) → M S (Unit {0})
  swallow m s = (ok tt, (m s).1)

  -- `try { m } catch (...) { h }`.
  abbrev pub handle : {A : Type 0} → Outcome A × S → (Exception → M S A) → Outcome A × S
  handle (ok a, s) h = (ok a, s)
  handle (throw e, s) h = h e s

  -- The call returned, and its value and final state satisfy `P`.
  abbrev pub Returns : {A : Type 0} → (A → S → Type 0) → Outcome A × S → Type 0
  Returns P (ok a, s) = P a s
  Returns P (throw e, s) = ⊥

  -- The call returned with `P`, or threw with `Q`.
  abbrev pub Ensures :
      {A : Type 0} → (A → S → Type 0) → (Exception → S → Type 0) → Outcome A × S → Type 0
  Ensures P Q (ok a, s) = P a s
  Ensures P Q (throw e, s) = Q e s

  pub Ensures-bind :
      {A B : Type 0} (P : A → S → Type 0) (P' : B → S → Type 0) (Q : Exception → S → Type 0)
      (r : Outcome A × S) (f : A → M S B)
      → Ensures P Q r
      → ((a : A) (s : S) → P a s → Ensures P' Q (f a s))
      → Ensures P' Q (and_then r f)
  Ensures-bind P P' Q (ok a, s) f h k = k a s h
  Ensures-bind P P' Q (throw e, s) f h k = h

  -- A first step that cannot throw.
  pub Returns-bind :
      {A B : Type 0} (P : A → S → Type 0) (P' : B → S → Type 0) (Q : Exception → S → Type 0)
      (r : Outcome A × S) (f : A → M S B)
      → Returns P r
      → ((a : A) (s : S) → P a s → Ensures P' Q (f a s))
      → Ensures P' Q (and_then r f)
  Returns-bind P P' Q (ok a, s) f h k = k a s h
  Returns-bind P P' Q (throw e, s) f h k = absurd h

  pub Returns-seq :
      {A B : Type 0} (P : A → S → Type 0) (P' : B → S → Type 0) (r : Outcome A × S) (f : A → M S B)
      → Returns P r
      → ((a : A) (s : S) → P a s → Returns P' (f a s))
      → Returns P' (and_then r f)
  Returns-seq P P' (ok a, s) f h k = k a s h
  Returns-seq P P' (throw e, s) f h k = absurd h

  pub Returns-mono :
      {A : Type 0} (P P' : A → S → Type 0) (r : Outcome A × S)
      → Returns P r
      → ((a : A) (s : S) → P a s → P' a s)
      → Returns P' r
  Returns-mono P P' (ok a, s) h k = k a s h
  Returns-mono P P' (throw e, s) h k = absurd h

  pub Ensures-of_Returns :
      {A : Type 0} (P P' : A → S → Type 0) (Q : Exception → S → Type 0) (r : Outcome A × S)
      → Returns P r
      → ((a : A) (s : S) → P a s → P' a s)
      → Ensures P' Q r
  Ensures-of_Returns P P' Q (ok a, s) h k = k a s h
  Ensures-of_Returns P P' Q (throw e, s) h k = absurd h

  pub Ensures-mono :
      {A : Type 0} (P P' : A → S → Type 0) (Q Q' : Exception → S → Type 0) (r : Outcome A × S)
      → Ensures P Q r
      → ((a : A) (s : S) → P a s → P' a s)
      → ((e : Exception) (s : S) → Q e s → Q' e s)
      → Ensures P' Q' r
  Ensures-mono P P' Q Q' (ok a, s) h k l = k a s h
  Ensures-mono P P' Q Q' (throw e, s) h k l = l e s h

-- A method of a part of an object, run in the object: `view` reads the part, `put` writes it back.
abbrev pub zoom : {S T A : Type 0} → (S → T) → (T → S → S) → M T A → M S A
zoom view put m s = ((m (view s)).0, put (m (view s)).1 s)

pub Ensures-zoom :
    {S T A : Type 0} (put : T → S → S) (s : S) (P : A → S → Type 0) (Q : Exception → S → Type 0)
    (r : Outcome A × T)
    → Ensures (λ a t. P a (put t s)) (λ e t. Q e (put t s)) r
    → Ensures P Q (r.0, put r.1 s)
Ensures-zoom put s P Q (ok a, t) h = h
Ensures-zoom put s P Q (throw e, t) h = h

pub Returns-zoom :
    {S T A : Type 0} (put : T → S → S) (s : S) (P : A → S → Type 0) (r : Outcome A × T)
    → Returns (λ a t. P a (put t s)) r
    → Returns P (r.0, put r.1 s)
Returns-zoom put s P (ok a, t) h = h
Returns-zoom put s P (throw e, t) h = absurd h

-- Two postconditions of one call.
pub Ensures-and :
    {S A : Type 0} (P P' : A → S → Type 0) (Q Q' : Exception → S → Type 0) (r : Outcome A × S)
    → Ensures P Q r
    → Ensures P' Q' r
    → Ensures (λ a s. P a s × P' a s) (λ e s. Q e s × Q' e s) r
Ensures-and P P' Q Q' (ok a, s) h k = (h, k)
Ensures-and P P' Q Q' (throw e, s) h k = (h, k)

pub Returns-and :
    {S A : Type 0} (P P' : A → S → Type 0) (Q : Exception → S → Type 0) (r : Outcome A × S)
    → Returns P r
    → Ensures P' Q r
    → Returns (λ a s. P a s × P' a s) r
Returns-and P P' Q (ok a, s) h k = (h, k)
Returns-and P P' Q (throw e, s) h k = absurd h

-- The result itself, beside its postcondition.
pub Returns-self :
    {S A : Type 0} (P : A → S → Type 0) (r : Outcome A × S)
    → Returns P r
    → Returns (λ a s. P a s × (r ≡ (ok a, s))) r
Returns-self P (ok a, s) h = (h, refl)
Returns-self P (throw e, s) h = absurd h
