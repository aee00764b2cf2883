-- ===== src/PolicyDiff/Keys.antt =====
-- Sets of keys and their sizes.
use policy_mesh.Prelude.{
  ◌∙◌, remove-Distinct, sym, contains-remove_ne, length-remove, inr, inl, eq_iff, length, refl,
  ◌==◌, Bool-cases, [], arith, nat_eq, ◌&&◌, false, true, ◌∷◌, Bool, Distinct, ◌≡◌, String, remove,
  List, contains,
}

unfoldable pub subset : List String → List String → Bool
subset [] ys = true
subset (x ∷ xs) ys = contains x ys && subset xs ys

subset-absent :
    (x : String) (xs ys : List String) → contains x ys ≡ false → subset ys (x ∷ xs) ≡ subset ys xs
unfolding subset contains
subset-absent x xs [] h = refl
subset-absent x xs (y ∷ ys) h = ground (arith, h, eq_iff y x, eq_iff x y, subset-absent x xs ys)

contains-remove_other :
    (k j : String) (xs : List String) → (j == k) ≡ false → contains j (remove k xs) ≡ contains j xs
contains-remove_other k j xs h =
    contains-remove_ne k j xs (λ p. cc (sym ((eq_iff j k).1 (sym p)) ∙ h))

subset_but_one :
    (x : String) (xs ys : List String)
    → contains x xs ≡ false
    → subset xs ys ≡ true
    → subset xs (remove x ys) ≡ true
unfolding subset contains
subset_but_one x [] ys h s = refl
subset_but_one x (a ∷ xs) ys h s =
    ground
      (arith, h, s, eq_iff x a, eq_iff a x, contains-remove_other x a ys, subset_but_one x xs ys)

subset-remove :
    (x : String) (ys xs : List String) → Distinct ys → subset ys (x ∷ xs) ≡ subset (remove x ys) xs
unfolding subset contains remove
subset-remove x [] xs d = refl
subset-remove x (y ∷ ys) xs d = elim (Bool-cases (y == x)) [
  | inl e ↦ rw e (ground (arith, e, eq_iff y x, eq_iff x y, d.0, subset-absent x xs ys))
  | inr e ↦ rw e (ground (arith, e, eq_iff y x, eq_iff x y, subset-remove x ys xs d.1))
]

pub pigeon :
    (xs ys : List String)
    → Distinct xs
    → Distinct ys
    → subset xs ys ≡ true
    → nat_eq (length xs) (length ys) ≡ subset ys xs
unfolding subset contains
pigeon [] [] d e s = refl
pigeon [] (y ∷ ys) d e s = ground arith
pigeon (x ∷ xs) ys d e s = ground (
  arith,
  s,
  d.0,
  length-remove x ys,
  subset-remove x ys xs e,
  subset_but_one x xs ys d.0,
  pigeon xs (remove x ys) d.1 (remove-Distinct x ys e),
)
