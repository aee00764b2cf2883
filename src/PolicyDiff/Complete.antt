-- ===== src/PolicyDiff/Complete.antt =====
-- links/policy_diff.py: when a difference names nothing.
use policy_mesh.Json.{list, null, str, int, bool, get}
use policy_mesh.PolicyDiff.Keys.{subset, pigeon}
use policy_mesh.Prelude.{
  nat_eq, add, none, Option, some, sym, ◌==◌, inr, inl, Distinct, ap, Bool-cases, [], arith, length,
  refl, ◌∙◌, false, true, ◌&&◌, ◌∷◌, Bool, String, is_empty, ◌≡◌, List, contains,
}
use policy_mesh.PolicyDiff.{
  shared_at, dedupe_into, diff_policies, diff_shared, was_added, diff_value, is_none_value,
  join_pointer, get, keys, was_removed, change_unless, diff_other, in_order, joined, own_keys,
  then_changes,
}
use policy_mesh.Json.{no_entries, entry, dict, Value, Entries}
use policy_mesh.Json.Compare.{equal_at, all_in, eq_value, size}
use mathlib.Core.Path.{subst}
use policy_mesh.PolicyDiff.Empty.{
  nothing, all_nothing, found, nothing-then, nothing-joined, all-in_order, nothing-own_keys,
  size_lem, contains-keys,
}

-- A value in which each dict that the comparison goes into has each key once.
unfoldable mutual
  unfolding keys

  pub Once : Value → Type 0
  Once (dict d) = Distinct (keys d) × OnceIn d
  Once _ = Unit

  pub OnceIn : Entries → Type 0
  OnceIn no_entries = Unit
  OnceIn (entry k v d) = Once v × OnceIn d

here : (k j : String) (v : Value) (d : Entries) → (j == k) ≡ true → get k (entry j v d) ≡ some v
unfolding get
here k j v d e = rw e refl

there : (k j : String) (v : Value) (d : Entries) → (j == k) ≡ false → get k (entry j v d) ≡ get k d
unfolding get
there k j v d e = rw e refl

some-injective : {v w : Value} → some v ≡ some w → v ≡ w
some-injective h = cc

get-Once : (k : String) (d : Entries) (w : Value) → OnceIn d → get k d ≡ some w → Once w
unfolding get Once
get-Once k no_entries w o h = cc
get-Once k (entry j v d) w o h = elim (Bool-cases (j == k)) [
  | inl e ↦ subst Once (some-injective (sym (here k j v d e) ∙ h)) o.0
  | inr e ↦ get-Once k d w o.1 (sym (there k j v d e) ∙ h)
]

none_value : (v : Value) → is_none_value v ≡ true → v ≡ null
none_value null h = refl
none_value (bool b) h = cc
none_value (int n) h = cc
none_value (str s) h = cc
none_value (list xs) h = cc
none_value (dict d) h = cc

eq_null : (old : Value) → is_none_value old ≡ false → eq_value old null ≡ false
unfolding eq_value
eq_null null h = cc
eq_null (bool b) h = refl
eq_null (int n) h = refl
eq_null (str s) h = refl
eq_null (list xs) h = refl
eq_null (dict d) h = refl

eq_value_null :
    (old new : Value)
    → is_none_value old ≡ false
    → is_none_value new ≡ true
    → eq_value old new ≡ false
eq_value_null old new h k = ap (λ v. eq_value old v) (none_value new k) ∙ eq_null old h

nothing-unless : (b : Bool) (ptr : String) → nothing (change_unless b ptr) ≡ b
unfolding nothing change_unless
nothing-unless true ptr = refl
nothing-unless false ptr = refl

nothing-other :
    (old new : Value) (ptr : String)
    → (is_none_value new ≡ true → eq_value old new ≡ false)
    → nothing (diff_other old new ptr) ≡ eq_value old new
unfolding diff_other was_removed nothing
nothing-other old new ptr h = elim (Bool-cases (is_none_value new)) [
  | inl e ↦ rw e (sym (h e))
  | inr e ↦ rw e (nothing-unless (eq_value old new) ptr)
]

nothing-null : (new : Value) (ptr : String) → nothing (diff_value null new ptr) ≡ eq_value null new
unfolding diff_value nothing was_added eq_value
nothing-null null ptr = refl
nothing-null (bool b) ptr = refl
nothing-null (int n) ptr = refl
nothing-null (str s) ptr = refl
nothing-null (list xs) ptr = refl
nothing-null (dict d) ptr = refl

and_swap : (s x r : Bool) → (s && (x && r)) ≡ (x && (s && r))
and_swap s x r = ground arith

and_sizes : (s t m q i : Bool) → (s && m) ≡ i → (s ≡ true → q ≡ t) → ((t && s) && m) ≡ (q && i)
and_sizes true t m q i h p =
    ap (λ b. b && m) (ground arith) ∙ ap (λ b. b && m) (sym (p refl)) ∙ ap (λ b. q && b) h
and_sizes false t m q i h p = ground (arith, h)

same_sizes :
    (d e : Entries)
    → Distinct (keys d)
    → Distinct (keys e)
    → subset (keys d) (keys e) ≡ true
    → nat_eq (size d) (size e) ≡ subset (keys e) (keys d)
same_sizes d e o n s =
    ap (λ x. nat_eq x (size e)) (sym (size_lem d))
    ∙ ap (λ x. nat_eq (length (keys d)) x) (sym (size_lem e))
    ∙ pigeon (keys d) (keys e) o n s

dict_step :
    (d e : Entries) (ptr : String)
    → Distinct (keys d)
    → Distinct (keys e)
    → (subset (keys d) (keys e) && all_nothing (diff_shared d e ptr)) ≡ all_in d e
    → nothing (then_changes (own_keys d e ptr) (joined (in_order (diff_shared d e ptr))))
      ≡ (nat_eq (size d) (size e) && all_in d e)
dict_step d e ptr o n h =
    nothing-then (own_keys d e ptr) (joined (in_order (diff_shared d e ptr)))
    ∙ ap (λ b. b && nothing (joined (in_order (diff_shared d e ptr)))) (nothing-own_keys d e ptr)
    ∙ ap (λ b. (subset (keys e) (keys d) && subset (keys d) (keys e)) && b)
        (nothing-joined (in_order (diff_shared d e ptr)) ∙ all-in_order (diff_shared d e ptr))
    ∙ and_sizes (subset (keys d) (keys e)) (subset (keys e) (keys d))
        (all_nothing (diff_shared d e ptr)) (nat_eq (size d) (size e)) (all_in d e) h
        (same_sizes d e o n)

shared_step :
    (k : String) (v : Value) (d e : Entries) (ptr : String) (x : Option Value)
    → OnceIn e
    → get k e ≡ x
    → ((w : Value) → Once w → nothing (diff_value v w (join_pointer ptr k)) ≡ eq_value v w)
    → (subset (keys d) (keys e) && all_nothing (diff_shared d e ptr)) ≡ all_in d e
    → ((found x && subset (keys d) (keys e))
        && all_nothing
            (shared_at k (λ w. diff_value v w (join_pointer ptr k)) x (diff_shared d e ptr)))
      ≡ (equal_at (λ w. eq_value v w) x && all_in d e)
unfolding all_nothing found
shared_step k v d e ptr none n h one rest = refl
shared_step k v d e ptr (some w) n h one rest =
    and_swap (subset (keys d) (keys e)) (nothing (diff_value v w (join_pointer ptr k)))
      (all_nothing (diff_shared d e ptr))
    ∙ ap (λ b. b && (subset (keys d) (keys e) && all_nothing (diff_shared d e ptr)))
        (one w (get-Once k e w n h))
    ∙ ap (λ b. eq_value v w && b) rest

mutual
  unfolding diff_value diff_shared eq_value all_in all_nothing keys subset Once OnceIn

  value_lem :
      (old new : Value) (ptr : String)
      → Once old
      → Once new
      → nothing (diff_value old new ptr) ≡ eq_value old new
  value_lem null new ptr o n = nothing-null new ptr
  value_lem (dict d) (dict e) ptr o n = dict_step d e ptr o.0 n.0 (shared_lem d e ptr o.1 n.1)
  value_lem (dict d) null ptr o n =
      nothing-other (dict d) null ptr (eq_value_null (dict d) null refl)
  value_lem (dict d) (bool b) ptr o n =
      nothing-other (dict d) (bool b) ptr (eq_value_null (dict d) (bool b) refl)
  value_lem (dict d) (int m) ptr o n =
      nothing-other (dict d) (int m) ptr (eq_value_null (dict d) (int m) refl)
  value_lem (dict d) (str s) ptr o n =
      nothing-other (dict d) (str s) ptr (eq_value_null (dict d) (str s) refl)
  value_lem (dict d) (list xs) ptr o n =
      nothing-other (dict d) (list xs) ptr (eq_value_null (dict d) (list xs) refl)
  value_lem (bool b) new ptr o n = nothing-other (bool b) new ptr (eq_value_null (bool b) new refl)
  value_lem (int m) new ptr o n = nothing-other (int m) new ptr (eq_value_null (int m) new refl)
  value_lem (str s) new ptr o n = nothing-other (str s) new ptr (eq_value_null (str s) new refl)
  value_lem (list xs) new ptr o n =
      nothing-other (list xs) new ptr (eq_value_null (list xs) new refl)

  shared_lem :
      (d e : Entries) (ptr : String)
      → OnceIn d
      → OnceIn e
      → (subset (keys d) (keys e) && all_nothing (diff_shared d e ptr)) ≡ all_in d e
  shared_lem no_entries e ptr o n = refl
  shared_lem (entry k v d) e ptr o n =
      ap (λ b. (b && subset (keys d) (keys e)) && all_nothing (diff_shared (entry k v d) e ptr))
        (contains-keys k e)
      ∙ shared_step k v d e ptr (get k e) n refl
          (λ w once. value_lem v w (join_pointer ptr k) o.0 once) (shared_lem d e ptr o.1 n)

add-filled : (k : String) (xs : List String) → is_empty (add k xs) ≡ false
unfolding add contains
add-filled k [] = refl
add-filled k (x ∷ xs) = ground arith

empty-dedupe :
    (out xs : List String) → is_empty (dedupe_into out xs) ≡ (is_empty out && is_empty xs)
unfolding dedupe_into
empty-dedupe out [] = ground arith
empty-dedupe out (x ∷ xs) = empty-dedupe (add x out) xs ∙ ground (arith, add-filled x out)

-- The difference of two policies, in which each dict has each key once, names nothing as added, removed or
-- changed exactly where Python's `==` finds the policies equal.
pub nothing-diff_policies :
    (old new : Entries)
    → Once (dict old)
    → Once (dict new)
    → nothing (diff_policies old new) ≡ eq_value (dict old) (dict new)
unfolding diff_policies nothing
nothing-diff_policies old new o n =
    let found_changes = diff_value (dict old) (dict new) "" in
    ground (
      arith,
      value_lem (dict old) (dict new) "" o n,
      empty-dedupe [] found_changes.added,
      empty-dedupe [] found_changes.removed,
      empty-dedupe [] found_changes.changed,
    )
