-- ===== src/PolicyDiff/Empty.antt =====
-- What makes the parts of a difference empty.
use policy_mesh.Json.{get}
use policy_mesh.PolicyDiff.Keys.{subset}
use policy_mesh.Prelude.{
  none, not, Option, keep, some, inr, inl, ap, text_le, Bool-cases, [], arith, length, refl, ◌∙◌,
  false, map, true, ◌&&◌, ◌++◌, ◌∷◌, Bool, String, is_empty, ◌≡◌, List, contains, insert_text,
  sort_texts,
}
use policy_mesh.PolicyDiff.{
  join_pointer, get, keys, in_order, insert_key, joined, own_keys, pointers_of, then_changes,
}
use policy_mesh.Update.{PolicyChangeSummary}
use policy_mesh.Json.{no_entries, entry, Value, Entries}
use policy_mesh.Json.Compare.{size}

-- Nothing is added, removed or changed.
unfoldable pub nothing : PolicyChangeSummary → Bool
nothing s = is_empty s.added && (is_empty s.removed && is_empty s.changed)

empty-append {ℓ} :
    {A : Type ℓ} (xs ys : List A) → is_empty (xs ++ ys) ≡ (is_empty xs && is_empty ys)
empty-append [] ys = refl
empty-append (x ∷ xs) ys = refl

pub nothing-then :
    (a b : PolicyChangeSummary) → nothing (then_changes a b) ≡ (nothing a && nothing b)
unfolding nothing then_changes
nothing-then a b = ground (
  arith,
  empty-append a.added b.added,
  empty-append a.removed b.removed,
  empty-append a.changed b.changed,
)

unfoldable pub all_nothing : List (String × PolicyChangeSummary) → Bool
all_nothing [] = true
all_nothing ((k, a) ∷ rest) = nothing a && all_nothing rest

pub nothing-joined :
    (xs : List (String × PolicyChangeSummary)) → nothing (joined xs) ≡ all_nothing xs
unfolding joined all_nothing nothing
nothing-joined [] = refl
nothing-joined ((k, a) ∷ rest) =
    nothing-then a (joined rest) ∙ ap (λ b. nothing a && b) (nothing-joined rest)

all-insert :
    (k : String) (a : PolicyChangeSummary) (xs : List (String × PolicyChangeSummary))
    → all_nothing (insert_key (k, a) xs) ≡ (nothing a && all_nothing xs)
unfolding insert_key all_nothing
all-insert k a [] = refl
all-insert k a ((j, b) ∷ rest) = elim (Bool-cases (text_le k j)) [
  | inl e ↦ rw e refl
  | inr e ↦ rw e (ground (arith, all-insert k a rest))
]

pub all-in_order :
    (xs : List (String × PolicyChangeSummary)) → all_nothing (in_order xs) ≡ all_nothing xs
unfolding in_order all_nothing
all-in_order [] = refl
all-in_order ((k, a) ∷ rest) =
    all-insert k a (in_order rest) ∙ ap (λ b. nothing a && b) (all-in_order rest)

empty-map {ℓ κ} :
    {A : Type ℓ} {B : Type κ} (f : A → B) (xs : List A) → is_empty (map f xs) ≡ is_empty xs
empty-map f [] = refl
empty-map f (x ∷ xs) = refl

empty-insert_text : (k : String) (xs : List String) → is_empty (insert_text k xs) ≡ false
unfolding insert_text
empty-insert_text k [] = refl
empty-insert_text k (x ∷ xs) = ground arith

empty-sort_texts : (xs : List String) → is_empty (sort_texts xs) ≡ is_empty xs
unfolding sort_texts
empty-sort_texts [] = refl
empty-sort_texts (x ∷ xs) = empty-insert_text x (sort_texts xs)

empty-keep : (xs ys : List String) → is_empty (keep (λ k. not (contains k ys)) xs) ≡ subset xs ys
unfolding subset
empty-keep [] ys = refl
empty-keep (x ∷ xs) ys = ground (arith, empty-keep xs ys)

empty-pointers_of :
    (ptr : String) (xs ys : List String) → is_empty (pointers_of ptr xs ys) ≡ subset xs ys
unfolding pointers_of
empty-pointers_of ptr xs ys = empty-map (join_pointer ptr) _ ∙ empty-sort_texts _ ∙ empty-keep xs ys

pub nothing-own_keys :
    (d e : Entries) (ptr : String)
    → nothing (own_keys d e ptr) ≡ (subset (keys e) (keys d) && subset (keys d) (keys e))
unfolding nothing own_keys
nothing-own_keys d e ptr =
    ground (arith, empty-pointers_of ptr (keys e) (keys d), empty-pointers_of ptr (keys d) (keys e))

pub size_lem : (d : Entries) → length (keys d) ≡ size d
unfolding keys size
size_lem no_entries = refl
size_lem (entry k v d) = ground (arith, size_lem d)

unfoldable pub found : Option Value → Bool
found none = false
found (some v) = true

pub contains-keys : (k : String) (d : Entries) → contains k (keys d) ≡ found (get k d)
unfolding contains keys get found
contains-keys k no_entries = refl
contains-keys k (entry j v d) = ground (arith, contains-keys k d)
