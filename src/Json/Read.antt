-- ===== src/Json/Read.antt =====
-- How the code reads the dict of a policy. The dict is empty or what VillagePolicy dumps, and a value
-- of another type than that gives is read as a missing one.
-- `policy.get(key) or {}`
use policy_mesh.Json.{
  no_elements, no_entries, some, str, dict, element, Entries, truth, get, list, Elements, Value,
}
use policy_mesh.Prelude.{if◌then◌else◌, ◌∷◌, Option, none, [], String, List}

unfoldable pub get_dict : String → Entries → Entries
unfolding get
get_dict key policy = elim (get key policy) [ none ↦ no_entries | some v ↦ entries_of v ]
  where
    entries_of : Value → Entries
    entries_of (dict d) = d
    entries_of _ = no_entries

unfoldable pub texts_of : Elements → List String
texts_of no_elements = []
texts_of (element (str s) rest) = s ∷ texts_of rest
texts_of (element _ rest) = texts_of rest

unfoldable pub texts_in : Value → List String
unfolding texts_of
texts_in (list xs) = texts_of xs
texts_in _ = []

-- `list(policy.get(key, []) or [])`, for a list of texts
unfoldable pub get_texts : String → Entries → List String
unfolding get texts_in
get_texts key policy = elim (get key policy) [ none ↦ [] | some v ↦ texts_in v ]

-- `policy.get(key)`, and None for a value that is false
unfoldable pub get_true : String → Entries → Option Value
unfolding get truth
get_true key policy = elim (get key policy) [
  | none ↦ none
  | some v ↦ if truth v then some v else none
]
