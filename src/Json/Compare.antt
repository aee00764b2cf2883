-- ===== src/Json/Compare.antt =====
-- How Python compares the values of a JSON document: `==`, `in`, and the order of numbers, texts and
-- lists. True is 1 and False is 0.
use policy_mesh.Json.{
  Value, Elements, Entries, null, bool, int, str, list, dict, no_elements, element, no_entries,
  entry, get,
}
use policy_mesh.Prelude.{
  codes_start, none, ◌==◌, ◌&&◌, [], nat_eq, ◌||◌, ◌∷◌, false, if◌then◌else◌, is_empty, some, true,
  ◌+◌, Bool, List, Option, String, ℕ, codes, codes_eq, codes_le,
}
use policy_mesh.Prelude.Int.{ℤ, pos, eq_ℤ, ltb_ℤ}

abbrev pub bit : Bool → ℤ
bit b = if b then pos 1 else pos 0

unfoldable pub size : Entries → ℕ
size no_entries = 0
size (entry k v d) = size d + 1

-- a value that is there, and equal
abbrev pub equal_at : (Value → Bool) → Option Value → Bool
equal_at equal none = false
equal_at equal (some w) = equal w

unfoldable mutual
  unfolding get size

  -- `a == b`; dicts are equal when they have the same keys with equal values
  pub eq_value : Value → Value → Bool
  eq_value null null = true
  eq_value (bool a) (bool b) = eq_ℤ (bit a) (bit b)
  eq_value (bool a) (int n) = eq_ℤ (bit a) n
  eq_value (int m) (bool b) = eq_ℤ m (bit b)
  eq_value (int m) (int n) = eq_ℤ m n
  eq_value (str s) (str t) = s == t
  eq_value (list xs) (list ys) = eq_elements xs ys
  eq_value (dict d) (dict e) = nat_eq (size d) (size e) && all_in d e
  eq_value _ _ = false

  pub eq_elements : Elements → Elements → Bool
  eq_elements no_elements no_elements = true
  eq_elements (element v xs) (element w ys) = eq_value v w && eq_elements xs ys
  eq_elements _ _ = false

  pub all_in : Entries → Entries → Bool
  all_in no_entries e = true
  all_in (entry k v d) e = equal_at (λ w. eq_value v w) (get k e) && all_in d e

-- `v in xs`
unfoldable pub among : Value → Elements → Bool
unfolding eq_value
among v no_elements = false
among v (element w ys) = eq_value v w || among v ys

-- `s in t` on texts
unfoldable pub is_infix : List ℕ → List ℕ → Bool
unfolding codes_start
is_infix s [] = is_empty s
is_infix s (b ∷ t) = codes_start s (b ∷ t) || is_infix s t

pub data Order : Type 0 where
  less : Order
  same : Order
  greater : Order

abbrev pub order_of : Bool → Bool → Order
order_of below equal = if below then less else if equal then same else greater

abbrev pub order_ℤ : ℤ → ℤ → Option Order
order_ℤ m n = some (order_of (ltb_ℤ m n) (eq_ℤ m n))

-- The order of two texts
unfoldable pub order_text : String → String → Option Order
unfolding codes codes_eq codes_le
order_text s t = some (
    if codes_eq (codes s) (codes t)
    then same
    else if codes_le (codes s) (codes t)
    then less
    else greater)

unfoldable mutual
  unfolding eq_value order_text

  -- `none` where Python raises TypeError; lists go by the first elements that differ
  pub order : Value → Value → Option Order
  order (bool a) (bool b) = order_ℤ (bit a) (bit b)
  order (bool a) (int n) = order_ℤ (bit a) n
  order (int m) (bool b) = order_ℤ m (bit b)
  order (int m) (int n) = order_ℤ m n
  order (str s) (str t) = order_text s t
  order (list xs) (list ys) = order_elements xs ys
  order _ _ = none

  pub order_elements : Elements → Elements → Option Order
  order_elements no_elements no_elements = some same
  order_elements no_elements (element w ys) = some less
  order_elements (element v xs) no_elements = some greater
  order_elements (element v xs) (element w ys) =
      let rest = order_elements xs ys in let here = order v w in if eq_value v w then rest else here
