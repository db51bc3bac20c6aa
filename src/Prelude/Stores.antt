-- ===== src/Prelude/Stores.antt =====
-- Maps from numbers, as lists of entries.
use Prim.Native.Nat.{ℕ}
use mathlib.Core.Path.{◌≡◌, refl}
use mathlib.Core.Logic.{◌≢◌, inl, inr}
use mathlib.Core.Option.{Option, none, some}
use mathlib.Core.List.{List, [], ◌∷◌}
use native.Mathlib.Omega.{arith}
use warhead_discord.Prelude.Tests.{◌==◌, if◌then◌else◌, Bool-cases}

module _ {ℓ} {V : Type ℓ} where
  unfoldable pub find : List (ℕ × V) → ℕ → Option V
  find [] key = none
  find ((k, v) ∷ store) key = let rest = find store key in if k == key then some v else rest

  unfoldable pub erase : List (ℕ × V) → ℕ → List (ℕ × V)
  erase [] key = []
  erase ((k, v) ∷ store) key =
      let rest = erase store key in if k == key then rest else (k, v) ∷ rest

  pub find-erase : (store : List (ℕ × V)) (key : ℕ) → find (erase store key) key ≡ none
  unfolding find erase
  find-erase [] key = refl
  find-erase ((k, v) ∷ store) key = ground (arith, find-erase store key)

  pub find-erase_other :
      (store : List (ℕ × V)) (key other : ℕ)
      → other ≢ key
      → find (erase store key) other ≡ find store other
  unfolding find erase
  find-erase_other [] key other ne = refl
  find-erase_other ((k, v) ∷ store) key other ne =
      ground (arith, find-erase_other store key other ne)

  -- No key stands in the store.
  abbrev pub Lacks : ℕ → List (ℕ × V) → Type 0
  Lacks key [] = Unit {0}
  Lacks key ((k, v) ∷ store) = (k ≢ key) × Lacks key store

  -- Every key stands in the store once at most, as in a map.
  abbrev pub IsMap : List (ℕ × V) → Type 0
  IsMap [] = Unit {0}
  IsMap ((k, v) ∷ store) = Lacks k store × IsMap store

  pub erase-Lacks : (store : List (ℕ × V)) (key : ℕ) → Lacks key (erase store key)
  unfolding erase
  erase-Lacks [] key = tt
  erase-Lacks ((k, v) ∷ store) key = ground (arith, erase-Lacks store key)

  pub erase-Lacks_other :
      (store : List (ℕ × V)) (key other : ℕ) → Lacks other store → Lacks other (erase store key)
  unfolding erase
  erase-Lacks_other [] key other h = tt
  erase-Lacks_other ((k, v) ∷ store) key other (ne, h) = elim (Bool-cases (k == key)) [
    | inl e ↦ rw (erase, e) (erase-Lacks_other store key other h)
    | inr e ↦ rw (erase, e) (ne, erase-Lacks_other store key other h)
  ]

  pub erase-IsMap : (store : List (ℕ × V)) (key : ℕ) → IsMap store → IsMap (erase store key)
  unfolding erase
  erase-IsMap [] key h = tt
  erase-IsMap ((k, v) ∷ store) key (l, h) = elim (Bool-cases (k == key)) [
    | inl e ↦ rw (erase, e) (erase-IsMap store key h)
    | inr e ↦ rw (erase, e) (erase-Lacks_other store key k l, erase-IsMap store key h)
  ]

  pub find-Lacks : (store : List (ℕ × V)) (key : ℕ) → Lacks key store → find store key ≡ none
  unfolding find
  find-Lacks [] key h = refl
  find-Lacks ((k, v) ∷ store) key (ne, h) = ground (arith, find-Lacks store key h)
