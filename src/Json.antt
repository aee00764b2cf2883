-- ===== src/Json.antt =====
-- The values of a JSON document as Python reads them. A number is an integer: no fraction is
-- modelled. A dict keeps the order of insertion.
pub mod Read
pub mod Compare
pub mod Dict
use policy_mesh.Prelude.{
  true, truthy, not, false, String, Bool, Option, none, some, ◌==◌, if◌then◌else◌,
}
use policy_mesh.Prelude.Int.{pos, eq_ℤ, ℤ}

mutual
  pub data Value : Type 0 where
    null : Value
    bool : Bool → Value
    int : ℤ → Value
    str : String → Value
    list : Elements → Value
    dict : Entries → Value

  pub data Elements : Type 0 where
    no_elements : Elements
    element : Value → Elements → Elements

  pub data Entries : Type 0 where
    no_entries : Entries
    entry : String → Value → Entries → Entries

-- `d.get(key)`, where the dict has each key once
unfoldable pub get : String → Entries → Option Value
get k no_entries = none
get k (entry j v rest) = if j == k then some v else get k rest

-- `bool(value)`
unfoldable pub truth : Value → Bool
truth null = false
truth (bool b) = b
truth (int n) = not (eq_ℤ n (pos 0))
truth (str s) = truthy s
truth (list no_elements) = false
truth (list (element _ _)) = true
truth (dict no_entries) = false
truth (dict (entry _ _ _)) = true

-- `bool(d.get(key, False))`
unfoldable pub flag : String → Entries → Bool
unfolding get truth
flag k d = elim (get k d) [ none ↦ false | some v ↦ truth v ]
