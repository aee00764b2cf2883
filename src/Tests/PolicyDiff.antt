-- ===== src/Tests/PolicyDiff.antt =====
-- Tests of links/policy_diff.py.
use policy_mesh.PolicyDiff.Complete.{nothing-diff_policies, Once}
use policy_mesh.Json.{bool, no_entries, null, str, int, dict, entry, Entries}
use policy_mesh.PolicyDiff.{diff_policies}
use policy_mesh.PolicyDiff.Empty.{nothing}
use policy_mesh.Prelude.{codes, codes_le, contains, insert_text, true, refl, [], ◌∷◌, ◌≡◌}
use policy_mesh.Json.Compare.{eq_value}
use policy_mesh.Prelude.Int.{pos}

abbrev before : Entries
before = entry "a/b" (int (pos 1)) (
    entry "roles" (dict (entry "x" null (entry "y" (bool true) no_entries)))
      (entry "old" null no_entries))

abbrev after : Entries
after =
    entry "roles" (dict (entry "y" (int (pos 1)) (entry "x" (str "s") no_entries)))
      (entry "a/b" (int (pos 2)) (entry "new" null no_entries))

-- True equals 1, None gives way to a value, and a slash in a key is escaped.
differences :
    diff_policies before after
    ≡ record { added = "/new" ∷ "/roles/x" ∷ []; removed = "/old" ∷ []; changed = "/a~1b" ∷ [] }
unfolding diff_policies insert_text codes_le codes
differences = refl

before-Once : Once (dict before)
unfolding Once contains
before-Once = ((refl, (refl, (refl, tt))), (tt, (((refl, (refl, tt)), (tt, (tt, tt))), (tt, tt))))

after-Once : Once (dict after)
unfolding Once contains
after-Once = ((refl, (refl, (refl, tt))), (((refl, (refl, tt)), (tt, (tt, tt))), (tt, (tt, tt))))

nothing-diff_policies_example :
    nothing (diff_policies before after) ≡ eq_value (dict before) (dict after)
nothing-diff_policies_example = nothing-diff_policies before after before-Once after-Once
