-- ===== src/PolicyDiff.antt =====
-- links/policy_diff.py: the difference of two policies, by JSON pointers. A number has no fraction, and
-- keys are texts.
pub mod Keys
pub mod Empty
pub mod Complete
use Prim.Native.String.{◌++◌ as append_text}
use policy_mesh.Prelude.{
  Option, some, none, not, keep, false, map, nat_eq, ◌==◌, [], if◌then◌else◌, sort_texts, true,
  ◌++◌, ◌∷◌, Bool, List, String, add, contains, text_le, ℕ,
}
use policy_mesh.Update.{PolicyChangeSummary}
use policy_mesh.Json.{list, str, int, no_entries, null, bool, entry, dict, get, Entries, Value}
use policy_mesh.Json.Compare.{eq_value}
use Prim.Native.Char.{code}

-- `s.replace(c, by)`, for a character that is given by its code
unfoldable pub replace_code : ℕ → String → String → String
replace_code c by String.[] = ""
replace_code c by (String.◌∷◌ a s) =
    let rest = replace_code c by s in
    if nat_eq (code a) c then append_text by rest else String.◌∷◌ a rest

-- `_join`
unfoldable pub join_pointer : String → String → String
unfolding replace_code
join_pointer ptr key =
    let escaped = replace_code b'/' "~1" (replace_code b'~' "~0" key) in
    if ptr == "" then append_text "/" escaped else append_text ptr (append_text "/" escaped)

abbrev pub no_change : PolicyChangeSummary
no_change = record { added = []; removed = []; changed = [] }

-- `ptr or "/"`
abbrev pub or_root : String → String
or_root ptr = if ptr == "" then "/" else ptr

unfoldable pub was_added : String → PolicyChangeSummary
was_added ptr = record no_change { added = or_root ptr ∷ [] }

unfoldable pub was_removed : String → PolicyChangeSummary
was_removed ptr = record no_change { removed = or_root ptr ∷ [] }

-- `if old != new: changed.append(ptr or "/")`
unfoldable pub change_unless : Bool → String → PolicyChangeSummary
change_unless equal ptr =
    if equal then no_change else record no_change { changed = or_root ptr ∷ [] }

-- What is appended to the three lists, and then what is appended next.
unfoldable pub then_changes : PolicyChangeSummary → PolicyChangeSummary → PolicyChangeSummary
then_changes a b = record {
  added = a.added ++ b.added;
  removed = a.removed ++ b.removed;
  changed = a.changed ++ b.changed;
}

unfoldable pub keys : Entries → List String
keys no_entries = []
keys (entry k v d) = k ∷ keys d

-- `sorted(wanted - other)`, as pointers
unfoldable pub pointers_of : String → List String → List String → List String
unfolding contains sort_texts join_pointer
pointers_of ptr wanted other =
    map (join_pointer ptr) (sort_texts (keep (λ k. not (contains k other)) wanted))

-- The loops over the keys that one of the dicts has alone.
unfoldable pub own_keys : Entries → Entries → String → PolicyChangeSummary
unfolding keys pointers_of
own_keys old new ptr = record {
  added = pointers_of ptr (keys new) (keys old);
  removed = pointers_of ptr (keys old) (keys new);
  changed = [];
}

-- What the shared keys give, in the order of the keys.
unfoldable pub insert_key :
    String × PolicyChangeSummary
    → List (String × PolicyChangeSummary)
    → List (String × PolicyChangeSummary)
unfolding text_le
insert_key (k, a) [] = (k, a) ∷ []
insert_key (k, a) ((j, b) ∷ rest) =
    let later = insert_key (k, a) rest in
    if text_le k j then (k, a) ∷ (j, b) ∷ rest else (j, b) ∷ later

unfoldable pub in_order : List (String × PolicyChangeSummary) → List (String × PolicyChangeSummary)
unfolding insert_key
in_order [] = []
in_order (x ∷ rest) = insert_key x (in_order rest)

unfoldable pub joined : List (String × PolicyChangeSummary) → PolicyChangeSummary
unfolding then_changes
joined [] = no_change
joined ((k, a) ∷ rest) = then_changes a (joined rest)

abbrev pub is_none_value : Value → Bool
is_none_value null = true
is_none_value _ = false

-- A value other than None and a dict, which was in the old policy.
unfoldable pub diff_other : Value → Value → String → PolicyChangeSummary
unfolding eq_value was_removed change_unless
diff_other old new ptr =
    if is_none_value new then was_removed ptr else change_unless (eq_value old new) ptr

-- a key that the new policy has too, before the other ones
abbrev pub shared_at :
    String
    → (Value → PolicyChangeSummary)
    → Option Value
    → List (String × PolicyChangeSummary)
    → List (String × PolicyChangeSummary)
shared_at k diff none rest = rest
shared_at k diff (some w) rest = (k, diff w) ∷ rest

-- `_diff`
unfoldable mutual
  unfolding was_added was_removed change_unless then_changes own_keys in_order joined diff_other get
      join_pointer

  pub diff_value : Value → Value → String → PolicyChangeSummary
  diff_value null new ptr = if is_none_value new then no_change else was_added ptr
  diff_value (dict d) (dict e) ptr =
      then_changes (own_keys d e ptr) (joined (in_order (diff_shared d e ptr)))
  diff_value (dict d) new ptr = diff_other (dict d) new ptr
  diff_value (bool b) new ptr = diff_other (bool b) new ptr
  diff_value (int n) new ptr = diff_other (int n) new ptr
  diff_value (str s) new ptr = diff_other (str s) new ptr
  diff_value (list xs) new ptr = diff_other (list xs) new ptr

  pub diff_shared : Entries → Entries → String → List (String × PolicyChangeSummary)
  diff_shared no_entries e ptr = []
  diff_shared (entry k v d) e ptr =
      shared_at k (λ w. diff_value v w (join_pointer ptr k)) (get k e) (diff_shared d e ptr)

-- the loop of `dedupe`
unfoldable pub dedupe_into : List String → List String → List String
unfolding add
dedupe_into out [] = out
dedupe_into out (x ∷ xs) = dedupe_into (add x out) xs

unfoldable pub diff_policies : Entries → Entries → PolicyChangeSummary
unfolding diff_value dedupe_into
diff_policies old new =
    let found = diff_value (dict old) (dict new) "" in
    record {
      added = dedupe_into [] found.added;
      removed = dedupe_into [] found.removed;
      changed = dedupe_into [] found.changed;
    }
