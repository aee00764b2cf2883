-- ===== src/Feed/Policy/Safe.antt =====
-- What an accepted update has to show: the hash of its policy, and a signature where one is required.
use policy_mesh.Feed.Policy.{
  model_of, or_none, has_any, read_roles, ok, FeedMessage, optional_signatures,
  evaluate_policy_quorum,
}
use policy_mesh.Update.{
  bind-returns, QuorumRequirement, compute_policy_hash, verify_update_any, VillagePolicyUpdate,
  Crypto,
}
use policy_mesh.Json.{flag, Entries}
use policy_mesh.Update.Weighted.{WeightMessage, verify_update_weighted_quorum}
use policy_mesh.Update.Roles.{Counts, RoleMessage, verify_update_role_based_quorum}
use policy_mesh.Prelude.{
  some, is_empty, ◌==◌, inl, inr, Bool-cases, false, eq_iff, arith, ◌⊎◌, Option, true, String, List,
  ◌≡◌,
}
use policy_mesh.Update.Quorum.{QuorumMessage, verify_update_quorum}
use policy_mesh.Prelude.Int.{pos, ℤ}
use policy_mesh.Json.Read.{get_texts, get_true, get_dict}
use policy_mesh.Feed.Policy.Answer.{number-answer, role-answer, weighted-answer}

module _ (C : Crypto) (u : VillagePolicyUpdate) where
  -- The update's hash is that of its policy.
  abbrev pub HashOk : Type 0
  HashOk = u.policy_hash ≡ compute_policy_hash C u.policy

  quorum-HashOk :
      (m : ℤ) (allow : Option (List String)) (message : QuorumMessage)
      → verify_update_quorum C u m allow ≡ ok (true, message)
      → HashOk
  unfolding verify_update_quorum
  quorum-HashOk m allow message h =
      ground (arith, h, eq_iff u.policy_hash (compute_policy_hash C u.policy))

  weighted-HashOk :
      (weights : List (String × ℤ)) (required : ℤ) (allow : Option (List String))
      (message : WeightMessage) (achieved : ℤ)
      → verify_update_weighted_quorum C u weights required allow ≡ ok (true, message, achieved)
      → HashOk
  unfolding verify_update_weighted_quorum
  weighted-HashOk weights required allow message achieved h =
      ground (arith, h, eq_iff u.policy_hash (compute_policy_hash C u.policy))

  pub roles-HashOk :
      (roles : List (String × List String)) (reqs : List QuorumRequirement)
      (allow : Option (List String)) (message : RoleMessage) (counts : Counts)
      → verify_update_role_based_quorum C u roles reqs allow ≡ ok (true, message, counts)
      → HashOk
  unfolding verify_update_role_based_quorum
  roles-HashOk roles reqs allow message counts h =
      ground (arith, h, eq_iff u.policy_hash (compute_policy_hash C u.policy))

  any-HashOk : verify_update_any C u ≡ ok true → HashOk
  unfolding verify_update_any
  any-HashOk h = ground (arith, h, eq_iff u.policy_hash (compute_policy_hash C u.policy))

  optional-HashOk :
      (allowlist : List String) (message : FeedMessage)
      → optional_signatures C u allowlist ≡ ok (true, message)
      → HashOk ⊎ (has_any u ≡ false)
  unfolding optional_signatures
  optional-HashOk allowlist message h = elim (Bool-cases (has_any u)) [
    | inr unsigned ↦ inr unsigned
    | inl signed ↦ elim (Bool-cases (is_empty allowlist)) [
      | inr listed ↦
          let (answer, ea, h₁) =
            bind-returns (verify_update_quorum C u (pos 1) (some allowlist)) _
              (rw (signed, listed) at h) in
          inl (quorum-HashOk (pos 1) (some allowlist) answer.1 (ground (arith, ea, h₁)))
      | inl unlisted ↦
          let (good, eg, h₁) =
            bind-returns (verify_update_any C u) _ (rw (signed, unlisted) at h) in
          inl (any-HashOk (ground (arith, eg, h₁)))
    ]
  ]

-- An accepted update has the hash of its policy, but where the village wants no signature and the
-- update has none: then the hash is not looked at.
pub evaluate-HashOk :
    (C : Crypto) (policy : Entries) (u : VillagePolicyUpdate) (message : FeedMessage)
    → evaluate_policy_quorum C policy u ≡ ok (true, message)
    → HashOk C u ⊎ ((flag "require_policy_signature" policy ≡ false) × (has_any u ≡ false))
unfolding evaluate_policy_quorum
evaluate-HashOk C policy u message h =
    let allowlist = get_texts "policy_signer_allowlist" policy in
    let quorum_cfg = get_dict "policy_quorum" policy in
    let model = model_of (get_true "model" quorum_cfg) in
    elim (Bool-cases (flag "require_policy_signature" policy)) [
      | inr free ↦ elim (optional-HashOk C u allowlist message (rw free at h)) [
        | inl good ↦ inl good
        | inr unsigned ↦ inr (free, unsigned)
      ]
      | inl required ↦ inl (elim (Bool-cases (model == "weighted")) [
        | inl w ↦
            let (weights, wanted, m, achieved, e) =
              weighted-answer C u allowlist policy quorum_cfg message (rw (required, w) at h) in
            weighted-HashOk C u weights wanted (or_none allowlist) m achieved e
        | inr w ↦ elim (Bool-cases (model == "role_based")) [
          | inl r ↦
              let (reqs, m, counts, er, e) =
                role-answer C u allowlist policy quorum_cfg message (rw (required, w, r) at h) in
              roles-HashOk C u (read_roles (get_dict "policy_signer_roles" policy)) reqs
                (or_none allowlist) m counts e
          | inr r ↦
              let (n, m, e) =
                number-answer C u allowlist policy quorum_cfg message (rw (required, w, r) at h) in
              quorum-HashOk C u n (or_none allowlist) m e
        ]
      ])
    ]
