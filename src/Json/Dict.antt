-- ===== src/Json/Dict.antt =====
-- Changes of a dict.
use policy_mesh.Json.{Value, Entries, entry, no_entries, get}
use policy_mesh.Prelude.{
  ◌∙◌, eq_iff, refl, ap, inr, eq_refl, inl, Bool-cases, arith, false, none, some, if◌then◌else◌,
  ◌==◌, ◌≡◌, String,
}

-- `d[key] = value`
unfoldable pub set_key : String → Value → Entries → Entries
set_key k v no_entries = entry k v no_entries
set_key k v (entry j w rest) =
    let later = set_key k v rest in if j == k then entry j v rest else entry j w later

-- `{k: v for k, v in d.items() if k != key}`
unfoldable pub without : String → Entries → Entries
without k no_entries = no_entries
without k (entry j w rest) = let later = without k rest in if j == k then later else entry j w later

pub get-set_key_self : (k : String) (v : Value) (d : Entries) → get k (set_key k v d) ≡ some v
unfolding get set_key
get-set_key_self k v no_entries = ground (arith, eq_refl k)
get-set_key_self k v (entry j w rest) = elim (Bool-cases (j == k)) [
  | inl e ↦ rw e (rw e refl)
  | inr e ↦ rw e (rw e (get-set_key_self k v rest))
]

pub get-set_key_ne :
    (k j : String) (v : Value) (d : Entries) → (j == k) ≡ false → get k (set_key j v d) ≡ get k d
unfolding get set_key
get-set_key_ne k j v no_entries n = rw n refl
get-set_key_ne k j v (entry i w rest) n = elim (Bool-cases (i == j)) [
  | inl e ↦ rw e (rw (ap (λ x. x == k) ((eq_iff i j).0 e) ∙ n) refl)
  | inr e ↦ rw e (rw (get-set_key_ne k j v rest n) refl)
]

pub without-absent : (k : String) (d : Entries) → get k d ≡ none → without k d ≡ d
unfolding get without
without-absent k no_entries h = refl
without-absent k (entry j w rest) h = elim (Bool-cases (j == k)) [
  | inl e ↦ ground (arith, h, e)
  | inr e ↦ rw e (ap (entry j w) (without-absent k rest (ground (arith, h, e))))
]

-- A key that was not there is set and taken away again.
pub without-set_key :
    (k : String) (v : Value) (d : Entries) → get k d ≡ none → without k (set_key k v d) ≡ d
unfolding get without set_key
without-set_key k v no_entries h = ground (arith, eq_refl k)
without-set_key k v (entry j w rest) h = elim (Bool-cases (j == k)) [
  | inl e ↦ ground (arith, h, e)
  | inr e ↦ rw e (rw e (ap (entry j w) (without-set_key k v rest (ground (arith, h, e)))))
]
