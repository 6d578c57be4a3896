-- ===== src/Base/Maps.antt =====
-- `std::unordered_map` with string keys as an association list; its order stands for the order of
-- iteration, which the source leaves open. Keys are compared as the source compares strings.
use Prim.Native.Nat.{◌+◌}
use mathlib.Core.Path.{◌≡◌, refl}
use mathlib.Core.List.{List, [], ◌∷◌}
use mathlib.Core.Option.{Option, none, some}
use native.Mathlib.Omega.{arith}
use network_omok.Base.Tests.{if◌then◌else◌}
use network_omok.Base.Lists.{length}
use network_omok.Base.Text.{WString, text_eq}

abbrev pub Assoc {ℓ} : Type ℓ → Type ℓ
Assoc V = List (WString × V)

module _ {ℓ} {V : Type ℓ} where
  -- find
  unfoldable pub lookup : WString → Assoc V → Option V
  lookup k [] = none
  lookup k ((j, v) ∷ m) = if text_eq j k then some v else lookup k m

  -- erase
  unfoldable pub erase : WString → Assoc V → Assoc V
  erase k [] = []
  erase k ((j, v) ∷ m) = if text_eq j k then m else (j, v) ∷ erase k m

  -- A change of the value that the key has, through a reference or a pointer to it.
  unfoldable pub adjust : WString → (V → V) → Assoc V → Assoc V
  adjust k f [] = []
  adjust k f ((j, v) ∷ m) = if text_eq j k then (j, f v) ∷ m else (j, v) ∷ adjust k f m

  -- insert, which changes nothing where the key is present
  unfoldable pub insert : WString → V → Assoc V → Assoc V
  unfolding lookup
  insert k v m = elim (lookup k m) [ none ↦ (k, v) ∷ m | some w ↦ m ]

  pub length-adjust : (k : WString) (f : V → V) (m : Assoc V) → length (adjust k f m) ≡ length m
  unfolding adjust
  length-adjust k f [] = refl
  length-adjust k f ((j, v) ∷ m) = ground (arith, length-adjust k f m)

  pub length-erase :
      (k : WString) (v : V) (m : Assoc V) → lookup k m ≡ some v → length (erase k m) + 1 ≡ length m
  unfolding lookup erase
  length-erase k v [] h = cc
  length-erase k v ((j, w) ∷ m) h = ground (arith, length-erase k v m)

  pub erase-adjust : (k : WString) (f : V → V) (m : Assoc V) → erase k (adjust k f m) ≡ erase k m
  unfolding erase adjust
  erase-adjust k f [] = refl
  erase-adjust k f ((j, v) ∷ m) = ground (arith, erase-adjust k f m)

  pub lookup-adjust_self :
      (k : WString) (f : V → V) (v : V) (m : Assoc V)
      → lookup k m ≡ some v
      → lookup k (adjust k f m) ≡ some (f v)
  unfolding lookup adjust
  lookup-adjust_self k f v [] h = absurd (ground arith)
  lookup-adjust_self k f v ((j, w) ∷ m) h = ground (arith, lookup-adjust_self k f v m)
