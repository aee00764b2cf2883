-- ===== src/Feed/Policy/Answer.antt =====
-- An accepting answer of each quorum model is that of its check.
use policy_mesh.Update.{bind-returns, QuorumRequirement, ok, VillagePolicyUpdate, Crypto}
use policy_mesh.Prelude.{arith, true, ◌≡◌, String, List}
use policy_mesh.Json.{Entries}
use policy_mesh.Feed.Policy.{
  or_nought, read_roles, or_one, number, read_weights, or_none, requirements_in, number_quorum,
  role_quorum, weighted_quorum, FeedMessage,
}
use policy_mesh.Prelude.Int.{ℤ}
use policy_mesh.Update.Weighted.{verify_update_weighted_quorum, WeightMessage}
use policy_mesh.Update.Roles.{verify_update_role_based_quorum, Counts, RoleMessage}
use policy_mesh.Update.Quorum.{verify_update_quorum, QuorumMessage}
use policy_mesh.Json.Read.{get_dict, get_true}

module _ (C : Crypto) (u : VillagePolicyUpdate) (allowlist : List String)
    (policy quorum_cfg : Entries) (message : FeedMessage) where
  pub weighted-answer :
      weighted_quorum C u allowlist policy quorum_cfg ≡ ok (true, message)
      → (weights : List (String × ℤ)) × (required : ℤ) × (m : WeightMessage) × (achieved : ℤ)
        × (verify_update_weighted_quorum C u weights required (or_none allowlist)
            ≡ ok (true, m, achieved))
  unfolding weighted_quorum
  weighted-answer h =
      let (weights, ew, h₁) =
        bind-returns (read_weights (get_dict "policy_signer_weights" policy)) _ h in
      let (required, er, h₂) =
        bind-returns (number (or_nought (get_true "threshold_weight" quorum_cfg))) _ h₁ in
      let (answer, ea, h₃) =
        bind-returns (verify_update_weighted_quorum C u weights required (or_none allowlist)) _
          h₂ in
      (weights, required, answer.1, answer.2, ground (arith, ea, h₃))

  pub role-answer :
      role_quorum C u allowlist policy quorum_cfg ≡ ok (true, message)
      → (reqs : List QuorumRequirement) × (m : RoleMessage) × (counts : Counts) × (requirements_in
            (get_true "role_requirements" quorum_cfg)
          ≡ ok reqs)
        × (verify_update_role_based_quorum C u
              (read_roles (get_dict "policy_signer_roles" policy))
              reqs
              (or_none allowlist)
            ≡ ok (true, m, counts))
  unfolding role_quorum
  role-answer h =
      let roles = read_roles (get_dict "policy_signer_roles" policy) in
      let (reqs, er, h₁) =
        bind-returns (requirements_in (get_true "role_requirements" quorum_cfg)) _ h in
      let (answer, ea, h₂) =
        bind-returns (verify_update_role_based_quorum C u roles reqs (or_none allowlist)) _ h₁ in
      (reqs, answer.1, answer.2, er, ground (arith, ea, h₂))

  pub number-answer :
      number_quorum C u allowlist policy quorum_cfg ≡ ok (true, message)
      → (m : ℤ) × (answer : QuorumMessage) × (verify_update_quorum C u m (or_none allowlist)
          ≡ ok (true, answer))
  unfolding number_quorum
  number-answer h =
      let (m, em, h₁) =
        bind-returns
          (number (
            or_one (get_true "threshold_m" quorum_cfg)
              (get_true "policy_signature_threshold_m" policy)))
          _ h in
      let (answer, ea, h₂) = bind-returns (verify_update_quorum C u m (or_none allowlist)) _ h₁ in
      (m, answer.1, ground (arith, ea, h₂))
