-- ===== src/Base/Keyed.antt =====
-- Association lists with distinct keys as finite functions: what `find` finds after `erase`,
-- `insert` and a change of a value.
use mathlib.Core.Path.{◌≡◌, refl, ap}
use mathlib.Core.Logic.{inl, inr}
use mathlib.Core.Bool.{true}
use mathlib.Core.List.{[], ◌∷◌}
use mathlib.Core.Option.{none, some}
use native.Mathlib.Omega.{arith}
use network_omok.Base.Tests.{if◌then◌else◌, Bool-cases, Option-cases}
use network_omok.Base.Text.{WString, text_eq, text_eq_iff}
use network_omok.Base.Maps.{Assoc, lookup, erase, insert, adjust}

pub text_eq_refl : (s : WString) → text_eq s s ≡ true
text_eq_refl s = (text_eq_iff s s).1 refl

module _ {ℓ} {V : Type ℓ} where
  -- No key stands twice.
  abbrev pub IsKeyed : Assoc V → Type ℓ
  IsKeyed [] = Unit {ℓ}
  IsKeyed ((j, v) ∷ m) = (lookup j m ≡ none) × IsKeyed m

  pub lookup-erase :
      (j k : WString) (m : Assoc V)
      → IsKeyed m
      → lookup j (erase k m) ≡ (if text_eq k j then none else lookup j m)
  unfolding lookup erase
  lookup-erase j k [] d = elim (Bool-cases (text_eq k j)) [
    | inl same ↦ ground (arith, same)
    | inr other ↦ ground (arith, other)
  ]
  lookup-erase j k ((i, v) ∷ m) d = elim (Bool-cases (text_eq i k)) [
    | inl found ↦
        ground
          (arith, found, ap (λ z. text_eq z j) ((text_eq_iff i k).0 found), text_eq_iff i j, d.0)
    | inr other ↦ ground (
      arith,
      other,
      lookup-erase j k m d.1,
      (text_eq_iff i k),
      (text_eq_iff i j),
      (text_eq_iff k j),
    )
  ]

  pub lookup-insert :
      (j k : WString) (w : V) (m : Assoc V)
      → lookup k m ≡ none
      → lookup j (insert k w m) ≡ (if text_eq k j then some w else lookup j m)
  unfolding lookup insert
  lookup-insert j k w m fresh = ground (arith, fresh)

  pub lookup-adjust :
      (j k : WString) (f : V → V) (v : V) (m : Assoc V)
      → lookup k m ≡ some v
      → lookup j (adjust k f m) ≡ (if text_eq k j then some (f v) else lookup j m)
  unfolding lookup adjust
  lookup-adjust j k f v [] e = absurd (ground arith)
  lookup-adjust j k f v ((i, w) ∷ m) e = elim (Bool-cases (text_eq i k)) [
    | inl found ↦ ground (arith, found, ap (λ z. text_eq z j) ((text_eq_iff i k).0 found))
    | inr other ↦
        ground
          (arith, other, lookup-adjust j k f v m, text_eq_iff i k, text_eq_iff i j, text_eq_iff k j)
  ]

  pub insert-IsKeyed : (k : WString) (w : V) (m : Assoc V) → IsKeyed m → IsKeyed (insert k w m)
  unfolding insert
  insert-IsKeyed k w m d = elim (Option-cases (lookup k m)) [
    | inl fresh ↦ ground (arith, fresh)
    | inr (v, there) ↦ ground (arith, there)
  ]

  pub erase-IsKeyed : (k : WString) (m : Assoc V) → IsKeyed m → IsKeyed (erase k m)
  unfolding erase
  erase-IsKeyed k [] d = tt
  erase-IsKeyed k ((i, v) ∷ m) d =
      ground
        (arith, erase-IsKeyed k m d.1, lookup-erase i k m d.1, text_eq_iff i k, text_eq_iff k i)

  lookup-adjust-none :
      (j k : WString) (f : V → V) (m : Assoc V) → lookup j m ≡ none → lookup j (adjust k f m) ≡ none
  unfolding lookup adjust
  lookup-adjust-none j k f [] e = refl
  lookup-adjust-none j k f ((i, w) ∷ m) e = ground (arith, lookup-adjust-none j k f m)

  pub adjust-IsKeyed : (k : WString) (f : V → V) (m : Assoc V) → IsKeyed m → IsKeyed (adjust k f m)
  unfolding adjust
  adjust-IsKeyed k f [] d = tt
  adjust-IsKeyed k f ((i, v) ∷ m) d =
      ground (arith, adjust-IsKeyed k f m d.1, lookup-adjust-none i k f m d.0)
