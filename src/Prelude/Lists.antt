-- ===== src/Prelude/Lists.antt =====
-- Lists measured by native numbers, under the library's names.
use Prim.Native.Nat.{◌<◌, ◌≤◌, ℕ, zero, suc, ◌+◌, ◌-◌, min}
use mathlib.Core.Path.{refl, ap, ◌≡◌}
use mathlib.Core.List.{map, List, [], ◌∷◌, ◌++◌}
use mathlib.Core.Option.{Option, none, some}
use mathlib.Core.Bool.{Bool, true, false}
use native.Mathlib.Omega.{arith}
use native.Mathlib.Nat.{zero-add, suc-add, add-zero}
use policy_mesh.Prelude.Tests.{if◌then◌else◌}
use mathlib.Core.Logic.{inr, inl, ◌⊎◌}

module _ {ℓ} {A : Type ℓ} where
  abbrev pub length : List A → ℕ
  length [] = 0
  length (x ∷ xs) = suc (length xs)

  abbrev pub take : ℕ → List A → List A
  take zero xs = []
  take (suc n) [] = []
  take (suc n) (x ∷ xs) = x ∷ take n xs

  abbrev pub drop : ℕ → List A → List A
  drop zero xs = xs
  drop (suc n) [] = []
  drop (suc n) (x ∷ xs) = drop n xs

  abbrev pub get_last? : List A → Option A
  get_last? [] = none
  get_last? (x ∷ []) = some x
  get_last? (x ∷ y ∷ xs) = get_last? (y ∷ xs)

  -- `filter` by a Boolean test
  abbrev pub keep : (A → Bool) → List A → List A
  keep p [] = []
  keep p (x ∷ xs) = let rest = keep p xs in if p x then x ∷ rest else rest

  -- Every element satisfies `P`.
  abbrev pub All {κ} : (A → Type κ) → List A → Type κ
  All P [] = Unit
  All P (x ∷ xs) = P x × All P xs

module _ {ℓ} {A : Type ℓ} where
  pub length-append : (xs ys : List A) → length (xs ++ ys) ≡ length xs + length ys
  length-append [] ys = omega arith
  length-append (x ∷ xs) ys = omega (arith, length-append xs ys)

  pub length-take : (n : ℕ) (xs : List A) → length (take n xs) ≡ min n (length xs)
  length-take zero xs = omega arith
  length-take (suc n) [] = omega arith
  length-take (suc n) (x ∷ xs) = omega (arith, length-take n xs)

  pub length-drop : (n : ℕ) (xs : List A) → length (drop n xs) ≡ length xs - n
  length-drop zero xs = omega arith
  length-drop (suc n) [] = omega arith
  length-drop (suc n) (x ∷ xs) = omega (arith, length-drop n xs)

module _ {ℓ} {A : Type ℓ} where
  abbrev pub get_elem? : List A → ℕ → Option A
  get_elem? [] i = none
  get_elem? (x ∷ xs) zero = some x
  get_elem? (x ∷ xs) (suc i) = get_elem? xs i

  pub get_elem?-drop : (k m : ℕ) (xs : List A) → get_elem? (drop k xs) m ≡ get_elem? xs (k + m)
  get_elem?-drop zero m xs = rw zero-add
  get_elem?-drop (suc k) m [] = refl
  get_elem?-drop (suc k) m (x ∷ xs) = rw suc-add (get_elem?-drop k m xs)

  -- The last element of the first ones.
  pub get_last?-take :
      (m : ℕ) (xs : List A)
      → m < length xs
      → (a : A) × (get_elem? xs m ≡ some a) × (get_last? (take (suc m) xs) ≡ some a)
  get_last?-take m [] h = absurd (omega arith)
  get_last?-take zero (x ∷ xs) h = (x, refl, refl)
  get_last?-take (suc m) (x ∷ []) h = absurd (omega arith)
  get_last?-take (suc m) (x ∷ y ∷ xs) h = get_last?-take m (y ∷ xs) (omega arith)

  drop-nil : (k : ℕ) → drop {A = A} k [] ≡ []
  drop-nil zero = refl
  drop-nil (suc k) = refl

  pub take-append-drop : (n k : ℕ) (xs : List A) → take n (drop k xs) ++ drop (k + n) xs ≡ drop k xs
  take-append-drop zero k xs = rw add-zero
  take-append-drop (suc n) zero [] = drop-nil (0 + suc n)
  take-append-drop (suc n) zero (x ∷ xs) =
      rw zero-add (ap (◌∷◌ x) (rw zero-add at (take-append-drop n zero xs)))
  take-append-drop (suc n) (suc k) [] = drop-nil (suc k + suc n)
  take-append-drop (suc n) (suc k) (x ∷ xs) = rw suc-add (take-append-drop (suc n) k xs)

  pub take_of_length-le : (n : ℕ) (xs : List A) → length xs ≤ n → take n xs ≡ xs
  take_of_length-le zero [] h = refl
  take_of_length-le (suc n) [] h = refl
  take_of_length-le zero (x ∷ xs) h = absurd (omega arith)
  take_of_length-le (suc n) (x ∷ xs) h = ap (◌∷◌ x) (take_of_length-le n xs (omega arith))

pub All-map {ℓ κ μ} :
    {A : Type ℓ} {P : A → Type κ} {Q : A → Type μ} (xs : List A)
    → ((a : A) → P a → Q a)
    → All P xs
    → All Q xs
All-map [] f a = tt
All-map (x ∷ xs) f a = (f x a.0, All-map xs f a.1)

pub List-cases {ℓ} :
    {A : Type ℓ} (xs : List A) → (xs ≡ []) ⊎ ((x : A) × (ys : List A) × (xs ≡ x ∷ ys))
List-cases [] = inl refl
List-cases (x ∷ xs) = inr (x, xs, refl)

-- `not xs` for a list
abbrev pub is_empty {ℓ} : {A : Type ℓ} → List A → Bool
is_empty [] = true
is_empty (_ ∷ _) = false

pub length-map {ℓ κ} :
    {A : Type ℓ} {B : Type κ} (f : A → B) (xs : List A) → length (map f xs) ≡ length xs
length-map f [] = refl
length-map f (x ∷ xs) = ap suc (length-map f xs)
