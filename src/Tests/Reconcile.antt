-- ===== src/Tests/Reconcile.antt =====
-- Tests of links/reconcile.py.
use policy_mesh.Reconcile.{hash_set, aligned, max_from, select, detect_forks, head, reconcile}
use policy_mesh.Prelude.{
  refl, true, add, contains, false, ◌++◌, [], truthy?, ◌↔◌, ◌∷◌, ◌⊎◌, none, some, ◌≡◌, List,
}
use policy_mesh.Update.{VillagePolicyUpdate}
use policy_mesh.Tests.Samples.{toy, update_at}
use policy_mesh.Feed.Order.{le_key}
use policy_mesh.Reconcile.Laws.{NoGap, hashes}
use policy_mesh.Reconcile.Report.{selected-Safe, status_iff}
use policy_mesh.Reconcile.Forks.{detect_forks_iff, NoFork}

abbrev older : List VillagePolicyUpdate
older = update_at "a" none 1 ∷ []

abbrev newer : List VillagePolicyUpdate
newer = update_at "a" none 1 ∷ update_at "b" (some "a") 2 ∷ []

-- The local side is ahead, and the older remote head is selected.
selected_older : (reconcile toy newer older "ops").selected_head ≡ some "a"
unfolding reconcile select head max_from le_key hash_set contains add
selected_older = refl

status_iff_example :
    ((reconcile toy newer older "ops").status ≡ aligned)
    ↔ (NoFork (newer ++ older) × NoGap (newer ++ older) × (head newer ≡ head older))
status_iff_example = status_iff toy newer older "ops"

selected-Safe_example :
    (head newer ≡ some "a")
    ⊎ ((head older ≡ some "a")
        × ((truthy? (head newer) ≡ false)
            ⊎ ((contains "a" (hashes newer) ≡ true)
                ⊎ (NoFork (newer ++ older) × NoGap (newer ++ older)))))
selected-Safe_example = selected-Safe toy newer older "ops" "a" selected_older

detect_forks_iff_example :
    (detect_forks toy (update_at "b" (some "a") 2 ∷ update_at "c" (some "a") 3 ∷ []) ≡ [])
    ↔ NoFork (update_at "b" (some "a") 2 ∷ update_at "c" (some "a") 3 ∷ [])
detect_forks_iff_example =
    detect_forks_iff toy (update_at "b" (some "a") 2 ∷ update_at "c" (some "a") 3 ∷ [])
