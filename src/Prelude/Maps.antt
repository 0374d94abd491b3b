-- ===== src/Prelude/Maps.antt =====
-- A `std::map` keyed by byte strings, as an association list.
use Prim.Native.Nat.{ℕ}
use mathlib.Core.Path.{◌≡◌, refl, sym}
use mathlib.Core.List.{List, [], ◌∷◌}
use mathlib.Core.Option.{Option, none, some}
use mathlib.Core.Logic.{inl, inr}
use native.Mathlib.Omega.{arith}
use web_rtcserver.Prelude.Tests.{bytes_eq, bytes_eq→eq, bytes_eq_refl, if◌then◌else◌, Bool-cases}

module _ {ℓ} {V : Type ℓ} where
  unfoldable pub lookup : List ℕ → List (List ℕ × V) → Option V
  lookup k [] = none
  lookup k ((j, v) ∷ m) = if bytes_eq j k then some v else lookup k m

  -- `m[k] = v`.
  unfoldable pub insert : List ℕ → V → List (List ℕ × V) → List (List ℕ × V)
  insert k v [] = (k, v) ∷ []
  insert k v ((j, w) ∷ m) = if bytes_eq j k then (k, v) ∷ m else (j, w) ∷ insert k v m

  unfoldable pub erase : List ℕ → List (List ℕ × V) → List (List ℕ × V)
  erase k [] = []
  erase k ((j, w) ∷ m) = if bytes_eq j k then erase k m else (j, w) ∷ erase k m

  pub lookup-insert :
      (k j : List ℕ) (v : V) (m : List (List ℕ × V))
      → lookup j (insert k v m) ≡ (if bytes_eq k j then some v else lookup j m)
  unfolding lookup insert
  lookup-insert k j v [] = refl
  lookup-insert k j v ((i, w) ∷ m) = elim (Bool-cases (bytes_eq i k)) [
    | inl e ↦ rw (sym (bytes_eq→eq i k e), bytes_eq_refl i) (ground arith)
    | inr n ↦ rw n (ground (arith, lookup-insert k j v m, bytes_eq→eq i j, bytes_eq→eq k j, n))
  ]

  pub lookup-erase :
      (k j : List ℕ) (m : List (List ℕ × V))
      → lookup j (erase k m) ≡ (if bytes_eq k j then none else lookup j m)
  unfolding lookup erase
  lookup-erase k j [] = ground arith
  lookup-erase k j ((i, w) ∷ m) = elim (Bool-cases (bytes_eq i k)) [
    | inl e ↦ rw (erase, e) (rw (bytes_eq→eq i k e) (ground (arith, lookup-erase k j m)))
    | inr n ↦
        rw (erase, n) (ground (arith, lookup-erase k j m, bytes_eq→eq i j, bytes_eq→eq k j, n))
  ]
