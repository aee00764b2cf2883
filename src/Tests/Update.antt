-- ===== src/Tests/Update.antt =====
-- Tests of links/policy_updates.py and links/policy_lifecycle.py.
use policy_mesh.Lifecycle.{
  done, Change, PolicyLifecycleEvent, transition_update, validate_transition,
}
use policy_mesh.Update.{
  QuorumRequirement, payload_for_signing, verify_one, key_hash_from_public_key_b64,
  compute_policy_hash, ok, VillagePolicyUpdate, verify_update_any,
}
use policy_mesh.Prelude.{
  ◌≤◌, ◌≢◌, ◌∷◌, String, List, contains, add, false, refl, [], ◌↔◌, none, some, ◌<◌, ◌≡◌, true,
}
use policy_mesh.Update.Quorum.{
  quorum_ok, QuorumMessage, quorum_not_met, allow_set, collect_signers, valid_signers,
  verify_update_quorum,
}
use policy_mesh.Lifecycle.Laws.{transition-unsigned, Steps, here, next, Steps-bounded}
use policy_mesh.Tests.Samples.{signed, toy}
use policy_mesh.Update.Quorum.Sound.{quorum_iff, HasSigners}
use policy_mesh.Prelude.Int.{ℤ, pos}
use policy_mesh.Update.Weighted.{verify_update_weighted_quorum, WeightMessage}
use policy_mesh.Update.Roles.{verify_update_role_based_quorum, Counts, RoleMessage}
use policy_mesh.Feed.Policy.Unsigned.{WantsNone}

-- Two entries by one key count once.
two_signers : verify_update_quorum toy signed (pos 2) none ≡ ok (true, quorum_ok)
unfolding verify_update_quorum valid_signers collect_signers compute_policy_hash
    key_hash_from_public_key_b64 verify_one add contains payload_for_signing
two_signers = refl

three_wanted : verify_update_quorum toy signed (pos 3) none ≡ ok (false, quorum_not_met 2 (pos 3))
unfolding verify_update_quorum valid_signers collect_signers compute_policy_hash
    key_hash_from_public_key_b64 verify_one add contains payload_for_signing
three_wanted = refl

quorum_iff_example : (true ≡ true) ↔ (
    (0 < 2)
    × (signed.policy_hash ≡ compute_policy_hash toy signed.policy)
    × HasSigners toy signed (allow_set none) 2)
quorum_iff_example = quorum_iff toy signed 2 none true quorum_ok two_signers

abbrev no_change : Change
no_change = record {
  actor = none;
  reason = none;
  activation_time = none;
  activation_height = none;
  rollback_to_policy_hash = none;
}

abbrev approved : VillagePolicyUpdate
approved = record signed { lifecycle_state = "approved"; signatures = [] }

abbrev approval : PolicyLifecycleEvent
approval = record {
  village_id = "ops";
  policy_hash = "p";
  policy_version_id = some "p";
  from_state = "proposal";
  to_state = "approved";
  actor = none;
  reason = none;
  rollback_to_policy_hash = none;
}

approve : transition_update signed "approved" no_change ≡ done (approved, approval)
unfolding transition_update validate_transition
approve = refl

-- Two signers of the weight 2 are wanted, and one elder.
abbrev weights : List (String × ℤ)
weights = ("k1", pos 1) ∷ ("k2", pos 1) ∷ []

abbrev roles : List (String × List String)
roles = ("k1", "elder" ∷ []) ∷ []

abbrev one_elder : List QuorumRequirement
one_elder = record { role = "elder"; min_signers = pos 1 } ∷ []

transition-unsigned_example :
    (verify_update_any toy approved ≡ ok false)
    × ((message : QuorumMessage) × (verify_update_quorum toy approved (pos 1) none
          ≡ ok (false, message)))
    × ((message : WeightMessage) (achieved : ℤ)
        → verify_update_weighted_quorum toy approved weights (pos 2) none
          ≢ ok (true, message, achieved))
    × ((message : RoleMessage) (counts : Counts)
        → verify_update_role_based_quorum toy approved roles one_elder none
          ≡ ok (true, message, counts)
        → WantsNone one_elder)
transition-unsigned_example =
    transition-unsigned toy signed "approved" no_change approved approval 1 none weights (pos 2)
      roles one_elder approve

-- From the proposal to its approval and to its activation.
abbrev activated : VillagePolicyUpdate
activated = record approved { lifecycle_state = "active" }

abbrev activation : PolicyLifecycleEvent
activation = record approval { from_state = "approved"; to_state = "active" }

activate : transition_update approved "active" no_change ≡ done (activated, activation)
unfolding transition_update validate_transition
activate = refl

activated-Steps : Steps signed 2 activated
activated-Steps =
    next "active" no_change activation (next "approved" no_change approval here approve) activate

Steps-bounded_example : (2 ≤ 3) × (0 < 2 → activated.lifecycle_state ≢ signed.lifecycle_state)
Steps-bounded_example = Steps-bounded activated-Steps
