-- ===== src/Tests/Pull.antt =====
-- A test of the pull of links/cli.py.
use policy_mesh.Tests.Samples.{signed, toy, update_at}
use policy_mesh.Tests.FeedPolicy.{manifest, json, fitting}
use policy_mesh.Update.{
  verify_one, verify_update_any, validation_error, raise, ok, VillagePolicyUpdate,
}
use policy_mesh.Pull.{
  manifest_failed, invalid_material, find_update, decide, decided, choose, PullContext, Pulled,
  policy_pull, pulled_of,
}
use policy_mesh.Admission.{lifecycle_is, collect, any_code, evaluate_policy_update}
use policy_mesh.Feed.Policy.{signer_allowed, feed_ok, FeedMessage}
use policy_mesh.Prelude.{
  eq_ignoring_case, refl, add, contains, [], String, none, some, true, ◌∷◌, ◌≡◌,
}
use policy_mesh.Feed.Manifest.{verify_manifest_against_policy}
use policy_mesh.Json.{flag, no_entries}
use policy_mesh.Pull.Applied.{pull-Applied, Admitted, Settled, MaterialFine}
use policy_mesh.Reconcile.{
  add_child, group, forks_of, detect_forks, hash_set, max_from, head, select, reconcile,
}
use policy_mesh.Feed.Gaps.{loop, start, step, drain, fill_history_gaps}
use policy_mesh.Feed.Order.{sort, le_key}

abbrev text : FeedMessage → String
text _ = ""

-- The local head "b" and the signed update "p" of the peer have one parent.
abbrev context : PullContext
context = record {
  village_id = "ops";
  apply_flag = true;
  current_policy = no_entries;
  local_updates = update_at "b" (some "a") 1 ∷ [];
  manifest = some (ok manifest);
  fetch_update_by_hash = none;
  now = 5;
}

abbrev fetched : VillagePolicyUpdate
fetched = record signed {
  created_at = 2;
  previous_policy_hash = some "a";
  lifecycle_state = "approved";
}

abbrev result : Pulled
result =
    pulled_of toy json fitting text context (some true) [] ("a" ∷ [])
      (reconcile toy context.local_updates (fetched ∷ []) "ops") fetched (true, feed_ok)

pull_run : policy_pull toy json fitting text context (fetched ∷ []) ≡ ok (decided result)
unfolding sort signer_allowed detect_forks forks_of group add_child policy_pull decide
    fill_history_gaps drain step start loop choose find_update reconcile select head max_from le_key
    hash_set contains add verify_update_any verify_one verify_manifest_against_policy
pull_run = refl

-- A manifest that cannot be read ends the pull, and so does an update whose signature is another's.
unreadable_manifest :
    policy_pull toy json fitting text
      (record context { manifest = some (raise validation_error) })
      (fetched ∷ [])
    ≡ ok manifest_failed
unfolding policy_pull verify_update_any verify_one
unreadable_manifest = refl

bad_material :
    policy_pull toy json fitting text context (record fetched { policy_hash = "x" } ∷ [])
    ≡ ok (invalid_material "x")
unfolding policy_pull verify_update_any verify_one
bad_material = refl

-- The reconciliation keeps the local head, and the peer's update is applied all the same.
fork_applied : (result.report.selected_head ≡ some "b") × (result.applied ≡ true)
unfolding detect_forks forks_of group add_child pulled_of reconcile select head max_from le_key
    hash_set contains add evaluate_policy_update any_code collect lifecycle_is eq_ignoring_case flag
fork_applied = (refl, refl)

pull-Applied_example :
    MaterialFine toy json fitting text (fetched ∷ [])
    × Settled toy json fitting text context (fetched ∷ []) result
    × (result.applied ≡ true → Admitted toy json fitting text context result)
pull-Applied_example = pull-Applied toy json fitting text context (fetched ∷ []) result pull_run
