-- ===== src/Prelude/Texts.antt =====
-- Text equality, and Python's `in`, `set.add` and truth tests over texts.

use Prim.Native.Nat.{ℕ, ◌+◌}
use Prim.Native.Char.{code}
use Prim.Native.String.{String}
use mathlib.Core.Path.{◌≡◌, refl}
use mathlib.Core.Logic.{inl, inr, ◌≢◌}
use mathlib.Core.Bool.{Bool, true, false, not, ◌||◌, ◌&&◌}
use mathlib.Core.List.{List, [], ◌∷◌, ◌++◌, map}
use mathlib.Core.Option.{Option, none, some}
use native.Mathlib.Omega.{arith}
pub use text.Mathlib.Text.{◌==◌}
pub use text.Mathlib.TextEquality.{eq_iff}
pub use text.Mathlib.TextPositions.{eq_refl}
use policy_mesh.Prelude.Tests.{ltb, if◌then◌else◌, Bool-cases, leb, nat_eq}

-- `k in xs`
unfoldable pub contains : String → List String → Bool
contains k [] = false
contains k (x ∷ xs) = x == k || contains k xs

-- `xs.add(k)` for a set held as a list without repetition
unfoldable pub add : String → List String → List String
add k xs = if contains k xs then xs else xs ++ (k ∷ [])

-- `bool(s)` for a text, and for a text or `None`
abbrev pub truthy : String → Bool
truthy s = not (s == "")

abbrev pub truthy? : Option String → Bool
truthy? none = false
truthy? (some s) = truthy s

pub eq-false : (a b : String) → a ≢ b → (a == b) ≡ false
eq-false a b h = elim (Bool-cases (a == b)) [ inl e ↦ absurd (h ((eq_iff a b).0 e)) | inr e ↦ e ]

pub contains-append :
    (k : String) (xs ys : List String) → contains k (xs ++ ys) ≡ (contains k xs || contains k ys)
unfolding contains
contains-append k [] ys = refl
contains-append k (x ∷ xs) ys = ground (arith, contains-append k xs ys)

pub contains-add :
    (k j : String) (xs : List String) → contains j (add k xs) ≡ (k == j || contains j xs)
unfolding add contains
contains-add k j xs = ground (arith, contains-append j xs (k ∷ []), eq_iff k j)

-- The code points of a text.
unfoldable pub codes : String → List ℕ
codes String.[] = []
codes (String.◌∷◌ c s) = code c ∷ codes s

-- `str.lower` on a code point, for the letters of ASCII: no other letter is folded.
unfoldable pub lower_code : ℕ → ℕ
lower_code c = if leb b'A' c && leb c b'Z' then c + 32 else c

unfoldable pub lower : String → List ℕ
unfolding codes lower_code
lower s = map lower_code (codes s)

unfoldable pub codes_eq : List ℕ → List ℕ → Bool
codes_eq [] [] = true
codes_eq (a ∷ as') (b ∷ bs) = nat_eq a b && codes_eq as' bs
codes_eq _ _ = false

-- `s.lower() == t.lower()`
unfoldable pub eq_ignoring_case : String → String → Bool
unfolding lower codes_eq
eq_ignoring_case s t = codes_eq (lower s) (lower t)

-- `s <= t` for texts: the order of the code points.
unfoldable pub codes_le : List ℕ → List ℕ → Bool
codes_le [] bs = true
codes_le (a ∷ as') [] = false
codes_le (a ∷ as') (b ∷ bs) = ltb a b || (nat_eq a b && codes_le as' bs)

unfoldable pub text_le : String → String → Bool
text_le s t = codes_le (codes s) (codes t)

codes_le-total : (as' bs : List ℕ) → codes_le as' bs ≡ false → codes_le bs as' ≡ true
unfolding codes_le
codes_le-total [] bs h = cc
codes_le-total (a ∷ as') [] h = refl
codes_le-total (a ∷ as') (b ∷ bs) h = ground (arith, codes_le-total as' bs)

pub text_le-total : (s t : String) → text_le s t ≡ false → text_le t s ≡ true
unfolding text_le
text_le-total s t = codes_le-total (codes s) (codes t)

codes_le_trans :
    (as' bs cs : List ℕ) → codes_le as' bs ≡ true → codes_le bs cs ≡ true → codes_le as' cs ≡ true
unfolding codes_le
codes_le_trans [] bs cs h k = refl
codes_le_trans (a ∷ as') [] cs h k = cc
codes_le_trans (a ∷ as') (b ∷ bs) [] h k = cc
codes_le_trans (a ∷ as') (b ∷ bs) (c ∷ cs) h k = ground (arith, codes_le_trans as' bs cs)

pub text_le_trans : (s t u : String) → text_le s t ≡ true → text_le t u ≡ true → text_le s u ≡ true
unfolding text_le
text_le_trans s t u = codes_le_trans (codes s) (codes t) (codes u)

-- `s.split(sep)`, for a separator of one character, given by its code
unfoldable pub split_on : ℕ → String → List String
split_on sep String.[] = "" ∷ []
split_on sep (String.◌∷◌ c s) =
    let rest = split_on sep s in if nat_eq (code c) sep then "" ∷ rest else longer rest
  where
    longer : List String → List String
    longer [] = String.◌∷◌ c "" ∷ []
    longer (p ∷ ps) = String.◌∷◌ c p ∷ ps

-- `s.startswith(prefix)`
unfoldable pub codes_start : List ℕ → List ℕ → Bool
codes_start [] t = true
codes_start (a ∷ s) [] = false
codes_start (a ∷ s) (b ∷ t) = nat_eq a b && codes_start s t

unfoldable pub starts_with : String → String → Bool
unfolding codes_start codes
starts_with prefix s = codes_start (codes prefix) (codes s)
