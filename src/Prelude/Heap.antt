-- ===== src/Prelude/Heap.antt =====
-- Objects by address, as an association list, and the entries of a vector.
use Prim.Native.Nat.{ℕ, zero, suc, ◌<◌}
use mathlib.Core.Path.{◌≡◌, refl}
use mathlib.Core.Logic.{◌≢◌}
use mathlib.Core.List.{List, [], ◌∷◌}
use mathlib.Core.Option.{Option, none, some}
use native.Mathlib.Omega.{arith}
use web_rtcserver.Prelude.Tests.{◌==◌, if◌then◌else◌}
use web_rtcserver.Prelude.Lists.{length, get_elem?}

module _ {ℓ} {A : Type ℓ} where
  -- What lives at an address.
  abbrev pub object_at : ℕ → List (ℕ × A) → Option A
  object_at a [] = none
  object_at a ((b, x) ∷ heap) = if b == a then some x else object_at a heap

  -- A write to the object at an address, or a new object there.
  abbrev pub store : ℕ → A → List (ℕ × A) → List (ℕ × A)
  store a x heap = (a, x) ∷ heap

  -- `delete`.
  abbrev pub free : ℕ → List (ℕ × A) → List (ℕ × A)
  free a [] = []
  free a ((b, x) ∷ heap) = if b == a then free a heap else (b, x) ∷ free a heap

  -- `v[i] = x`, within the bounds.
  abbrev pub set_elem : ℕ → A → List A → List A
  set_elem i x [] = []
  set_elem zero x (y ∷ ys) = x ∷ ys
  set_elem (suc i) x (y ∷ ys) = y ∷ set_elem i x ys

  pub object_at-free_other :
      (a b : ℕ) (heap : List (ℕ × A)) → a ≢ b → object_at a (free b heap) ≡ object_at a heap
  object_at-free_other a b [] h = refl
  object_at-free_other a b ((c, x) ∷ heap) h = ground (arith, object_at-free_other a b heap h)

  pub object_at-store_other :
      (a b : ℕ) (x : A) (heap : List (ℕ × A))
      → a ≢ b
      → object_at a (store b x heap) ≡ object_at a heap
  object_at-store_other a b x heap h = ground arith

  pub object_at-store :
      (a : ℕ) (x : A) (heap : List (ℕ × A)) → object_at a (store a x heap) ≡ some x
  object_at-store a x heap = ground arith

  pub get_elem?-set_elem_other :
      (i j : ℕ) (x : A) (xs : List A) → i ≢ j → get_elem? (set_elem j x xs) i ≡ get_elem? xs i
  get_elem?-set_elem_other i j x [] h = refl
  get_elem?-set_elem_other zero zero x (y ∷ ys) h = absurd (h refl)
  get_elem?-set_elem_other (suc i) zero x (y ∷ ys) h = refl
  get_elem?-set_elem_other zero (suc j) x (y ∷ ys) h = refl
  get_elem?-set_elem_other (suc i) (suc j) x (y ∷ ys) h =
      get_elem?-set_elem_other i j x ys (λ e. h (omega arith))

  pub get_elem?-set_elem :
      (i : ℕ) (x : A) (xs : List A) → i < length xs → get_elem? (set_elem i x xs) i ≡ some x
  get_elem?-set_elem i x [] h = absurd (omega arith)
  get_elem?-set_elem zero x (y ∷ ys) h = refl
  get_elem?-set_elem (suc i) x (y ∷ ys) h = get_elem?-set_elem i x ys (omega arith)

  pub length-set_elem : (i : ℕ) (x : A) (xs : List A) → length (set_elem i x xs) ≡ length xs
  length-set_elem i x [] = refl
  length-set_elem zero x (y ∷ ys) = refl
  length-set_elem (suc i) x (y ∷ ys) = omega (arith, length-set_elem i x ys)
