-- ===== src/Norms/Diff.antt =====
-- links/norms.py: the difference of two sets of norms, by their identifiers. Of norms with one
-- identifier the last counts.
use policy_mesh.Norms.{Norm, NormSet}
use policy_mesh.Norms.Rules.{NormRule}
use policy_mesh.Json.Compare.{eq_value}
use policy_mesh.Prelude.{
  eq_refl, eq_iff, sym, contains-both, contains-minus, inr, inl, ◌∙◌, Bool-cases,
  contains-sort_texts, refl, contains-add, false, not, [], arith, both, if◌then◌else◌, some, true,
  ◌&&◌, map, minus, none, ◌==◌, ◌∷◌, ◌≡◌, Bool, List, Option, String, add, contains, sort_texts,
}
use mathlib.Core.Path.{subst}

-- `{n.norm_id: n for n in norms}`, at one key
unfoldable pub last_norm : String → List Norm → Option Norm
last_norm id [] = none
last_norm id (n ∷ ns) = later_or (last_norm id ns)
  where
    later_or : Option Norm → Option Norm
    later_or (some m) = some m
    later_or none = if n.norm_id == id then some n else none

unfoldable pub ids_of : List Norm → List String
unfolding add
ids_of [] = []
ids_of (n ∷ ns) = add n.norm_id (ids_of ns)

unfoldable pub eq_texts : List String → List String → Bool
eq_texts [] [] = true
eq_texts (s ∷ ss) (t ∷ ts) = s == t && eq_texts ss ts
eq_texts _ _ = false

unfoldable pub eq_rules : List NormRule → List NormRule → Bool
unfolding eq_value
eq_rules [] [] = true
eq_rules (r ∷ rs) (q ∷ qs) = r.key == q.key && eq_value r.value q.value && eq_rules rs qs
eq_rules _ _ = false

abbrev pub eq_optional : Option String → Option String → Bool
eq_optional none none = true
eq_optional (some s) (some t) = s == t
eq_optional _ _ = false

-- `a.model_dump() == b.model_dump()`
unfoldable pub eq_norm : Norm → Norm → Bool
unfolding eq_texts eq_rules
eq_norm a b =
    a.norm_id == b.norm_id
    && a.statement == b.statement
    && a.category == b.category
    && a.enforcement == b.enforcement
    && eq_optional a.rationale b.rationale
    && eq_texts a.tags b.tags
    && eq_rules a.compile_to b.compile_to

abbrev pub eq_found : Option Norm → Option Norm → Bool
eq_found (some a) (some b) = eq_norm a b
eq_found _ _ = true

unfoldable pub changed_among : NormSet → NormSet → List String → List String
unfolding last_norm
changed_among old new [] = []
changed_among old new (k ∷ ks) =
    let rest = changed_among old new ks in
    if eq_found (last_norm k old.norms) (last_norm k new.norms) then rest else k ∷ rest

pub record NormSetDiff : Type 0 where
  pub old_norm_set_id : String
  pub new_norm_set_id : String
  pub added : List String
  pub removed : List String
  pub changed : List String

unfoldable pub diff_norm_sets : NormSet → NormSet → NormSetDiff
unfolding ids_of changed_among sort_texts minus both
diff_norm_sets old new = record {
  old_norm_set_id = old.norm_set_id;
  new_norm_set_id = new.norm_set_id;
  added = sort_texts (minus (ids_of new.norms) (ids_of old.norms));
  removed = sort_texts (minus (ids_of old.norms) (ids_of new.norms));
  changed = changed_among old new (sort_texts (both (ids_of old.norms) (ids_of new.norms)));
}

-- The set has a norm with the identifier.
abbrev pub Has : String → NormSet → Type 0
Has k s = (n : Norm) × (last_norm k s.norms ≡ some n)

contains-changed :
    (k : String) (old new : NormSet) (ks : List String)
    → contains k (changed_among old new ks)
      ≡ (contains k ks && not (eq_found (last_norm k old.norms) (last_norm k new.norms)))
unfolding changed_among contains
contains-changed k old new [] = refl
contains-changed k old new (j ∷ ks) = elim (Bool-cases (j == k)) [
  | inl e ↦
      subst
        (λ z.
          contains k (changed_among old new (z ∷ ks))
          ≡ (contains k (z ∷ ks) && not (eq_found (last_norm k old.norms) (last_norm k new.norms))))
        (sym ((eq_iff j k).0 e)) (ground (arith, eq_refl k, contains-changed k old new ks))
  | inr d ↦ ground (arith, d, contains-changed k old new ks)
]

contains-ids :
    (k : String) (ns : List Norm) → contains k (ids_of ns) ≡ contains k (map (λ n. n.norm_id) ns)
unfolding ids_of contains
contains-ids k [] = refl
contains-ids k (n ∷ ns) = ground (arith, contains-add n.norm_id k (ids_of ns), contains-ids k ns)

-- A norm's identifier is listed as added, removed or changed exactly when only the new set has it, only
-- the old set has it, or both have it and their last norms with it differ.
pub diff_lem :
    (old new : NormSet) (k : String)
    → let d = diff_norm_sets old new in
      let before = contains k (map (λ n. n.norm_id) old.norms) in
      let after = contains k (map (λ n. n.norm_id) new.norms) in
      (contains k d.added ≡ (after && not before))
      × (contains k d.removed ≡ (before && not after))
      × (contains k d.changed
          ≡ ((before && after) && not (eq_found (last_norm k old.norms) (last_norm k new.norms))))
unfolding diff_norm_sets
diff_lem old new k = (
  contains-sort_texts k (minus (ids_of new.norms) (ids_of old.norms))
      ∙ contains-minus k (ids_of new.norms) (ids_of old.norms)
      ∙ rw (contains-ids k new.norms, contains-ids k old.norms) refl,
  contains-sort_texts k (minus (ids_of old.norms) (ids_of new.norms))
      ∙ contains-minus k (ids_of old.norms) (ids_of new.norms)
      ∙ rw (contains-ids k new.norms, contains-ids k old.norms) refl,
  contains-changed k old new (sort_texts (both (ids_of old.norms) (ids_of new.norms)))
      ∙ rw
          (
            contains-sort_texts k (both (ids_of old.norms) (ids_of new.norms)),
            contains-both k (ids_of old.norms) (ids_of new.norms),
            contains-ids k new.norms,
            contains-ids k old.norms,
          )
          refl,
)
