-- ===== src/Tests/Signing.antt =====
-- Tests of the signing and of the weighted and role-based checks of links/policy_updates.py.
use policy_mesh.Tests.Samples.{toy, signed}
use policy_mesh.Update.Quorum.{
  valid_signers, verify_update_quorum, quorum_ok, allow_set, collect_signers,
}
use policy_mesh.Update.{
  payload_for_signing, ok, verify_one, QuorumRequirement, key_hash_from_public_key_b64,
  VillagePolicyUpdate, compute_policy_hash,
}
use policy_mesh.Prelude.{
  All, arith, ◌↔◌, not, true, add, nat_eq, Distinct, [], if◌then◌else◌, none, refl, String,
  contains, ℕ, ◌∷◌, ◌≡◌, Bool, List,
}
use policy_mesh.Update.Signing.{build_update, Draft, IsSound, SigningKey}
use policy_mesh.Update.Weighted.{verify_update_weighted_quorum, WeightMessage}
use policy_mesh.Update.Signing.Laws.{quorum-sign_all, hashes, sign_all, key_hash}
use policy_mesh.Json.{null}
use policy_mesh.Update.Roles.{verify_update_role_based_quorum, Counts, RoleMessage}
use policy_mesh.Prelude.Int.{ltb_ℤ, pos, ℤ}
use policy_mesh.Update.Weighted.Equivalent.{weighted_lem, total}
use policy_mesh.Update.Roles.Equivalent.{roles_lem, Meets}

abbrev pub key_a : SigningKey
key_a = record { verify_key = 1 ∷ []; sign = λ _. 1 ∷ [] }

abbrev pub key_b : SigningKey
key_b = record { verify_key = 2 ∷ []; sign = λ _. 2 ∷ [] }

abbrev pub encode : List ℕ → String
encode [] = ""
encode (n ∷ _) = if nat_eq n 1 then "A" else "B"

pub key_a-IsSound : IsSound toy encode key_a
key_a-IsSound = record {
  decodes_key = refl;
  decodes_signature = λ _. refl;
  accepts = refl;
  verifies = λ _. refl;
}

key_b-IsSound : IsSound toy encode key_b
key_b-IsSound = record {
  decodes_key = refl;
  decodes_signature = λ _. refl;
  accepts = refl;
  verifies = λ _. refl;
}

abbrev draft : Draft
draft = record {
  village_id = "ops";
  policy = null;
  actor = none;
  lifecycle_state = "proposal";
  previous_policy_hash = none;
  activation_time = none;
  activation_height = none;
  policy_version_id = none;
  quorum = none;
  quorum_metadata = none;
  change_summary = none;
  now = 1;
}

two_keys-Distinct : Distinct (hashes toy encode (key_a ∷ key_b ∷ []))
unfolding key_hash contains
two_keys-Distinct = (refl, (refl, tt))

quorum-sign_all_example :
    (u : VillagePolicyUpdate) × (sign_all toy encode (build_update toy draft) (key_a ∷ key_b ∷ [])
      ≡ ok u)
    × (verify_update_quorum toy u (pos 2) none ≡ ok (true, quorum_ok))
quorum-sign_all_example =
    quorum-sign_all toy encode draft (key_a ∷ key_b ∷ []) 2 (key_a-IsSound, (key_b-IsSound, tt))
      two_keys-Distinct (omega arith) (omega arith)

signers : valid_signers toy signed (allow_set none) ≡ ok ("k1" ∷ "k2" ∷ [])
unfolding valid_signers collect_signers compute_policy_hash key_hash_from_public_key_b64 verify_one
    add contains payload_for_signing
signers = refl

right_hash : signed.policy_hash ≡ compute_policy_hash toy signed.policy
unfolding compute_policy_hash
right_hash = refl

abbrev weights : List (String × ℤ)
weights = ("k1", pos 2) ∷ ("k2", pos 3) ∷ []

weighted_lem_example :
    (message : WeightMessage) × (verify_update_weighted_quorum toy signed weights (pos 4) none
      ≡ ok (
        not (ltb_ℤ (total weights (pos 0) ("k1" ∷ "k2" ∷ [])) (pos 4)),
        message,
        total weights (pos 0) ("k1" ∷ "k2" ∷ []),
      ))
weighted_lem_example =
    weighted_lem toy signed weights (pos 4) none ("k1" ∷ "k2" ∷ []) signers right_hash refl

abbrev roles : List (String × List String)
roles = ("k1", "elder" ∷ []) ∷ ("k2", "elder" ∷ "scribe" ∷ []) ∷ []

abbrev wanted : List QuorumRequirement
wanted =
    record { role = "elder"; min_signers = pos 2 }
    ∷ record { role = "scribe"; min_signers = pos 1 }
    ∷ []

roles_lem_example :
    (accepted : Bool) × (message : RoleMessage) × (counts : Counts)
    × (verify_update_role_based_quorum toy signed roles wanted none
        ≡ ok (accepted, message, counts))
    × ((accepted ≡ true) ↔ All (Meets roles ("k1" ∷ "k2" ∷ [])) wanted)
roles_lem_example = roles_lem toy signed roles wanted none ("k1" ∷ "k2" ∷ []) signers right_hash
