-- ===== src/Prelude/Sets.antt =====
-- Sets of texts held as lists: distinct elements, `list.remove`, and counting.
use Prim.Native.Nat.{◌+◌, ◌≤◌}
use Prim.Native.String.{String}
use mathlib.Core.Path.{◌≡◌, refl, sym}
use mathlib.Core.Logic.{inl, inr, ◌≢◌}
use mathlib.Core.Bool.{not, ◌&&◌, ◌||◌, true, false}
use mathlib.Core.List.{List, [], ◌∷◌, ◌++◌}
use native.Mathlib.Omega.{arith}
use policy_mesh.Prelude.Tests.{if◌then◌else◌, Bool-cases}
use policy_mesh.Prelude.Lists.{length, All}
use policy_mesh.Prelude.Texts.{text_le, eq_refl, ◌==◌, eq_iff, contains, add, contains-append}

abbrev pub Distinct : List String → Type 0
Distinct [] = Unit
Distinct (x ∷ xs) = (contains x xs ≡ false) × Distinct xs

-- `xs.remove(k)`, where `k` is in the list: the first occurrence goes
unfoldable pub remove : String → List String → List String
remove k [] = []
remove k (x ∷ xs) = let rest = remove k xs in if x == k then xs else x ∷ rest

pub contains-remove_ne :
    (k j : String) (xs : List String) → k ≢ j → contains j (remove k xs) ≡ contains j xs
unfolding contains remove
contains-remove_ne k j [] h = refl
contains-remove_ne k j (x ∷ xs) h =
    ground (arith, eq_iff x k, eq_iff x j, contains-remove_ne k j xs h)

pub contains-remove_self :
    (k : String) (xs : List String) → Distinct xs → contains k (remove k xs) ≡ false
unfolding contains remove
contains-remove_self k [] d = refl
contains-remove_self k (x ∷ xs) d = ground (arith, eq_iff x k, contains-remove_self k xs d.1)

pub remove-Distinct : (k : String) (xs : List String) → Distinct xs → Distinct (remove k xs)
unfolding remove
remove-Distinct k [] d = tt
remove-Distinct k (x ∷ xs) d = elim (Bool-cases (x == k)) [
  | inl e ↦ rw e d.1
  | inr e ↦ rw e (
    rw (contains-remove_ne k x xs (λ p. cc ((eq_iff x k).1 (sym p)))) d.0,
    remove-Distinct k xs d.1,
  )
]

pub length-remove :
    (k : String) (xs : List String) → contains k xs ≡ true → length (remove k xs) + 1 ≡ length xs
unfolding contains remove
length-remove k [] h = cc
length-remove k (x ∷ xs) h = ground (arith, length-remove k xs)

pub append-Distinct :
    (k : String) (xs : List String)
    → contains k xs ≡ false
    → Distinct xs
    → Distinct (xs ++ (k ∷ []))
unfolding contains
append-Distinct k [] h d = (refl, tt)
append-Distinct k (x ∷ xs) h d = (
  ground (arith, contains-append x xs (k ∷ []), eq_iff x k, eq_iff k x),
  append-Distinct k xs (ground arith) d.1,
)

pub add-Distinct : (k : String) (xs : List String) → Distinct xs → Distinct (add k xs)
unfolding add
add-Distinct k xs d = elim (Bool-cases (contains k xs)) [
  | inl e ↦ rw e d
  | inr e ↦ rw e (append-Distinct k xs e d)
]

-- Every element of `xs` is in `ys`.
abbrev pub Within : List String → List String → Type 0
Within xs ys = All (λ x. contains x ys ≡ true) xs

Within-remove :
    (x : String) (xs ys : List String)
    → contains x xs ≡ false
    → Within xs ys
    → Within xs (remove x ys)
unfolding contains
Within-remove x [] ys h w = tt
Within-remove x (y ∷ xs) ys h w = (
  rw (contains-remove_ne x y ys (λ p. ground (arith, eq_iff y x))) w.0,
  Within-remove x xs ys (ground arith) w.1,
)

-- Distinct elements of `ys` are no more than its length.
pub length-le_of_Within : (xs ys : List String) → Distinct xs → Within xs ys → length xs ≤ length ys
length-le_of_Within [] ys d w = omega arith
length-le_of_Within (x ∷ xs) ys d w = omega (
  arith,
  length-remove x ys w.0,
  length-le_of_Within xs (remove x ys) d.1 (Within-remove x xs ys d.0 w.1),
)

-- Statements about every element, from statements about what `contains` answers.
pub All-of_contains {κ} :
    (P : String → Type κ) (xs : List String)
    → ((k : String) → contains k xs ≡ true → P k)
    → All P xs
unfolding contains
All-of_contains P [] f = tt
All-of_contains P (x ∷ xs) f =
    (f x (rw eq_refl refl), All-of_contains P xs (λ k c. f k (ground (arith, eq_iff x k))))

-- `sorted` on texts
unfoldable pub insert_text : String → List String → List String
insert_text h [] = h ∷ []
insert_text h (x ∷ xs) = let rest = insert_text h xs in if text_le h x then h ∷ x ∷ xs else x ∷ rest

unfoldable pub sort_texts : List String → List String
sort_texts [] = []
sort_texts (h ∷ hs) = insert_text h (sort_texts hs)

-- `a - b` and `a & b` on sets
unfoldable pub minus : List String → List String → List String
minus [] ys = []
minus (x ∷ xs) ys = let rest = minus xs ys in if contains x ys then rest else x ∷ rest

unfoldable pub both : List String → List String → List String
both [] ys = []
both (x ∷ xs) ys = let rest = both xs ys in if contains x ys then x ∷ rest else rest

pub contains-both :
    (k : String) (xs ys : List String) → contains k (both xs ys) ≡ (contains k xs && contains k ys)
unfolding both contains
contains-both k [] ys = refl
contains-both k (x ∷ xs) ys = ground (arith, contains-both k xs ys, eq_iff x k)

pub contains-minus :
    (k : String) (xs ys : List String)
    → contains k (minus xs ys) ≡ (contains k xs && not (contains k ys))
unfolding minus contains
contains-minus k [] ys = refl
contains-minus k (x ∷ xs) ys = ground (arith, contains-minus k xs ys, eq_iff x k)

contains-insert_text :
    (k h : String) (xs : List String) → contains k (insert_text h xs) ≡ (h == k || contains k xs)
unfolding insert_text contains
contains-insert_text k h [] = refl
contains-insert_text k h (x ∷ xs) = ground (arith, contains-insert_text k h xs)

pub contains-sort_texts :
    (k : String) (xs : List String) → contains k (sort_texts xs) ≡ contains k xs
unfolding sort_texts contains
contains-sort_texts k [] = refl
contains-sort_texts k (x ∷ xs) =
    ground (arith, contains-insert_text k x (sort_texts xs), contains-sort_texts k xs)
