-- ===== src/Villages/Name.antt =====
-- links/validate.py: the identifiers of villages, which become names of directories.
use policy_mesh.Prelude.{
  [], ◌||◌, ◌∷◌, true, truthy, ◌&&◌, Bool, List, String, ℕ, codes, leb, nat_eq,
}

-- `[a-zA-Z0-9_-]`
unfoldable pub is_name_code : ℕ → Bool
is_name_code c =
    (leb b'a' c && leb c b'z')
    || ((leb b'A' c && leb c b'Z')
        || ((leb b'0' c && leb c b'9') || (nat_eq c b'_' || nat_eq c b'-')))

unfoldable pub all_name_codes : List ℕ → Bool
unfolding is_name_code
all_name_codes [] = true
all_name_codes (c ∷ cs) = is_name_code c && all_name_codes cs

-- False where `validate_village_id` raises ValueError.
unfoldable pub validate_village_id : String → Bool
unfolding all_name_codes codes
validate_village_id village_id = truthy village_id && all_name_codes (codes village_id)
