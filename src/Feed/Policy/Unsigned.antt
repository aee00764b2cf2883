-- ===== src/Feed/Policy/Unsigned.antt =====
-- An update without any signature, where the village requires signatures.
use policy_mesh.Update.{ok, QuorumRequirement, legacy, VillagePolicyUpdate, Crypto}
use policy_mesh.Feed.Policy.{
  read_roles, or_none, requirements_in, model_of, FeedMessage, evaluate_policy_quorum, has_any,
}
use policy_mesh.Prelude.{
  eq_iff, inr, inl, ◌==◌, Bool-cases, arith, true, ◌≢◌, Option, All, String, List, [], false, ◌≡◌,
}
use policy_mesh.Update.Roles.{Counts, RoleMessage, verify_update_role_based_quorum}
use policy_mesh.Update.Weighted.{WeightMessage, count_weights, verify_update_weighted_quorum}
use policy_mesh.Update.Quorum.{
  allow_set, QuorumMessage, collect_signers, valid_signers, verify_update_quorum,
}
use policy_mesh.Prelude.Int.{pos, ltb_ℤ, ℤ}
use policy_mesh.Update.Roles.Counts.{holders}
use policy_mesh.Feed.Policy.Safe.{roles-HashOk}
use policy_mesh.Update.Roles.Equivalent.{roles_lem}
use policy_mesh.Json.{flag, Entries}
use policy_mesh.Json.Read.{get_texts, get_dict, get_true}
use policy_mesh.Feed.Policy.Answer.{number-answer, role-answer, weighted-answer}

-- No requirement wants a signer.
abbrev pub WantsNone : List QuorumRequirement → Type 0
WantsNone = All (λ r. ltb_ℤ (pos 0) r.min_signers ≡ false)

module _ (C : Crypto) (u : VillagePolicyUpdate) (unsigned : has_any u ≡ false) where
  signatures_nil : u.signatures ≡ []
  signatures_nil = ground (arith, unsigned)

  legacy_nil : legacy C u ≡ []
  legacy_nil = ground (arith, unsigned)

  unsigned-quorum :
      (m : ℤ) (allow : Option (List String)) (message : QuorumMessage)
      → verify_update_quorum C u m allow ≢ ok (true, message)
  unfolding verify_update_quorum valid_signers collect_signers
  unsigned-quorum m allow message h = ground (arith, h, signatures_nil, legacy_nil)

  pub unsigned-weighted :
      (weights : List (String × ℤ)) (required : ℤ) (allow : Option (List String))
      (message : WeightMessage) (achieved : ℤ)
      → verify_update_weighted_quorum C u weights required allow ≢ ok (true, message, achieved)
  unfolding verify_update_weighted_quorum count_weights
  unsigned-weighted weights required allow message achieved h =
      ground (arith, h, signatures_nil, legacy_nil)

  pub unsigned-roles :
      (roles : List (String × List String)) (reqs : List QuorumRequirement)
      (allow : Option (List String)) (message : RoleMessage) (counts : Counts)
      → verify_update_role_based_quorum C u roles reqs allow ≡ ok (true, message, counts)
      → WantsNone reqs
  unfolding valid_signers collect_signers holders
  unsigned-roles roles reqs allow message counts h =
      let none_valid : valid_signers C u (allow_set allow) ≡ ok [] =
        ground (arith, signatures_nil, legacy_nil) in
      let same = roles-HashOk C u roles reqs allow message counts h in
      let (accepted, message', counts', e, (to, from)) =
        roles_lem C u roles reqs allow [] none_valid same in
      to (ground (arith, e, h))

-- Where the village requires signatures, an update without any is accepted only under a role-based
-- quorum in which no requirement wants a signer.
pub evaluate_unsigned :
    (C : Crypto) (policy : Entries) (u : VillagePolicyUpdate) (message : FeedMessage)
    → flag "require_policy_signature" policy ≡ true
    → has_any u ≡ false
    → evaluate_policy_quorum C policy u ≡ ok (true, message)
    → (model_of (get_true "model" (get_dict "policy_quorum" policy)) ≡ "role_based")
      × ((reqs : List QuorumRequirement) × (requirements_in
              (get_true "role_requirements" (get_dict "policy_quorum" policy))
            ≡ ok reqs)
          × WantsNone reqs)
unfolding evaluate_policy_quorum
evaluate_unsigned C policy u message required unsigned h =
    let allowlist = get_texts "policy_signer_allowlist" policy in
    let quorum_cfg = get_dict "policy_quorum" policy in
    let model = model_of (get_true "model" quorum_cfg) in
    elim (Bool-cases (model == "weighted")) [
      | inl w ↦
          let (weights, wanted, m, achieved, e) =
            weighted-answer C u allowlist policy quorum_cfg message (rw (required, w) at h) in
          absurd (unsigned-weighted C u unsigned weights wanted (or_none allowlist) m achieved e)
      | inr w ↦ elim (Bool-cases (model == "role_based")) [
        | inl r ↦
            let (reqs, m, counts, er, e) =
              role-answer C u allowlist policy quorum_cfg message (rw (required, w, r) at h) in
            let roles = read_roles (get_dict "policy_signer_roles" policy) in
            (
              (eq_iff model "role_based").0 r,
              (reqs, er, unsigned-roles C u unsigned roles reqs (or_none allowlist) m counts e),
            )
        | inr r ↦
            let (n, m, e) =
              number-answer C u allowlist policy quorum_cfg message (rw (required, w, r) at h) in
            absurd (unsigned-quorum C u unsigned n (or_none allowlist) m e)
      ]
    ]
