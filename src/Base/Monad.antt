-- ===== src/Base/Monad.antt =====
-- The monad of the handlers: a state that an action changes, and undefined behaviour as `none`.
use mathlib.Core.Path.{◌≡◌}
use mathlib.Core.Logic.{inl, inr}
use mathlib.Core.Option.{Option, none, some}
use native.Mathlib.Omega.{arith}
use network_omok.Base.Tests.{Option-cases}

abbrev pub State : Type 0 → Type 0 → Type 0
State S A = S → Option (A × S)

abbrev pub pure : {S A : Type 0} → A → State S A
pure a s = some (a, s)

infixl 5 ◌>>=◌ ◌>>◌
abbrev pub ◌>>=◌ : {S A B : Type 0} → State S A → (A → State S B) → State S B
◌>>=◌ m f s = elim (m s) [ none ↦ none | some (a, t) ↦ f a t ]

abbrev pub ◌>>◌ : {S B : Type 0} → State S (Unit {0}) → State S B → State S B
m >> k = m >>= λ _. k

abbrev pub undefined : {S A : Type 0} → State S A
undefined s = none

abbrev pub gets : {S A : Type 0} → (S → A) → State S A
gets f s = some (f s, s)

abbrev pub modify : {S : Type 0} → (S → S) → State S (Unit {0})
modify f s = some (tt, f s)

-- `*p` for a pointer that may be null.
abbrev pub deref : {S A : Type 0} → Option A → State S A
deref none = undefined
deref (some a) = pure a

-- Inversion of an action that has returned.
pub bind-eq-some :
    {S A B : Type 0} (m : State S A) (f : A → State S B) (s t : S) (b : B)
    → (m >>= f) s ≡ some (b, t)
    → (a : A) × (u : S) × (m s ≡ some (a, u)) × (f a u ≡ some (b, t))
bind-eq-some m f s t b e = elim (Option-cases (m s)) [
  | inl stopped ↦ absurd (ground arith)
  | inr ((a, u), went) ↦ (a, u, went, ground arith)
]

-- An action that returns, and then the rest.
pub bind-some :
    {S A B : Type 0} (m : State S A) (f : A → State S B) (s u : S) (a : A) (z : Option (B × S))
    → m s ≡ some (a, u)
    → f a u ≡ z
    → (m >>= f) s ≡ z
bind-some m f s u a z went rest = ground (arith, went, rest)
