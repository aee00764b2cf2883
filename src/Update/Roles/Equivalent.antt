-- ===== src/Update/Roles/Equivalent.antt =====
-- The role-based check counts, for each role that is required, the signers of the M-of-N check that
-- have the role.
use policy_mesh.Prelude.{
  All-map, Bool, Option, add, false, inr, inl, All, Bool-cases, ◌↔◌, refl, [], eq_iff, ◌∙◌, arith,
  true, ◌≡◌, ◌∷◌, ℕ, String, List,
}
use policy_mesh.Update.Roles.{
  roles_verdict, RoleMessage, verify_update_role_based_quorum, count_all_roles, count_signed_roles,
  lacks, missing_roles, start_from, role_count, Counts,
}
use policy_mesh.Update.{
  legacy, payload_for_signing, compute_policy_hash, VillagePolicyUpdate, verify_one,
  key_hash_from_public_key_b64, bind-returns, ok, SignatureEntry, Payload, QuorumRequirement,
  Crypto,
}
use policy_mesh.Update.Quorum.{allow_set, valid_signers, blocked, collect_signers, count_signer}
use policy_mesh.Prelude.Int.{ℤ, pos, ltb_ℤ}
use policy_mesh.Update.Roles.Counts.{
  start-All, start-AllNought, role_count-credit, credit-snoc, holders, credit,
}

module _ (C : Crypto) (payload : Payload) (allow : List String)
    (roles : List (String × List String)) where
  count_signed_lem :
      (e : SignatureEntry) (counts : Counts) (valid valid' : List String)
      → count_signer C payload allow e valid ≡ ok valid'
      → count_signed_roles C payload allow roles e (credit roles counts valid, valid)
        ≡ ok (credit roles counts valid', valid')
  unfolding count_signer count_signed_roles add
  count_signed_lem e counts valid valid' h =
      let (k, ek, h₁) = bind-returns (key_hash_from_public_key_b64 C e.public_key) _ h in
      elim (Bool-cases (blocked allow k)) [
        | inl b ↦ ground (arith, ek, h₁, b)
        | inr b ↦
            let (good, eg, h₂) =
              bind-returns (verify_one C payload e.public_key e.signature e.alg) _ (rw b at h₁) in
            ground (arith, ek, eg, h₂, b, credit-snoc roles counts valid k)
      ]

  count_all_lem :
      (es : List SignatureEntry) (counts : Counts) (valid valid' : List String)
      → collect_signers C payload allow es valid ≡ ok valid'
      → count_all_roles C payload allow roles es (credit roles counts valid, valid)
        ≡ ok (credit roles counts valid', valid')
  unfolding collect_signers count_all_roles
  count_all_lem [] counts valid valid' h = ground (arith, h)
  count_all_lem (e ∷ es) counts valid valid' h =
      let (v, hv, rest) = bind-returns (count_signer C payload allow e valid) _ h in
      ground (arith, count_signed_lem e counts valid v hv, count_all_lem es counts v valid' rest)

missing-none_iff :
    (counts : Counts) (reqs : List QuorumRequirement)
    → (missing_roles counts reqs ≡ []) ↔ All (λ r. lacks counts r ≡ false) reqs
unfolding missing_roles
missing-none_iff counts [] = (λ _. tt, λ _. refl)
missing-none_iff counts (r ∷ rs) =
    let (to, from) = missing-none_iff counts rs in
    elim (Bool-cases (lacks counts r)) [
      | inl e ↦ rw e (λ w. cc, λ w. cc)
      | inr e ↦ rw e (λ w. (refl, to w), λ w. from w.1)
    ]

-- The required number of signers has the role.
abbrev pub Meets : List (String × List String) → List String → QuorumRequirement → Type 0
Meets roles valid r = ltb_ℤ (pos (holders roles r.role valid)) r.min_signers ≡ false

verdict_iff :
    (missing : List (String × ℕ × ℤ)) (counts : Counts)
    → ((roles_verdict missing counts).0 ≡ true) ↔ (missing ≡ [])
verdict_iff [] counts = (λ _. refl, λ _. refl)
verdict_iff (m ∷ ms) counts = (λ e. cc, λ e. cc)

lacks-Meets :
    (roles : List (String × List String)) (valid : List String) (counts : Counts)
    (reqs : List QuorumRequirement)
    → All (λ r. role_count r.role counts ≡ holders roles r.role valid) reqs
    → All (λ r. lacks counts r ≡ false) reqs ↔ All (Meets roles valid) reqs
lacks-Meets roles valid counts [] same = (λ w. w, λ w. w)
lacks-Meets roles valid counts (r ∷ rs) same =
    let (to, from) = lacks-Meets roles valid counts rs same.1 in
    (λ w. (rw (← same.0) w.0, to w.1), λ w. (rw same.0 w.0, from w.1))

-- The counts are those of the holders, for the roles that are required.
credit-All :
    (roles : List (String × List String)) (reqs : List QuorumRequirement) (valid : List String)
    → All
        (λ r.
          role_count r.role (credit roles (start_from [] reqs) valid) ≡ holders roles r.role valid)
        reqs
unfolding role_count
credit-All roles reqs valid =
    All-map reqs
      (λ r has.
        role_count-credit roles r.role valid (start_from [] reqs) has
        ∙ omega (arith, start-AllNought reqs [] (λ role. refl) r.role))
      (start-All reqs [])

-- Where the signers of the M-of-N check can be counted, the role-based check of an update whose hash
-- is right accepts exactly when, for each requirement, as many of them as it wants have its role. A
-- role that a signer is given twice counts twice.
pub roles_lem :
    (C : Crypto) (u : VillagePolicyUpdate) (roles : List (String × List String))
    (requirements : List QuorumRequirement) (signer_allowlist : Option (List String))
    (valid : List String)
    → valid_signers C u (allow_set signer_allowlist) ≡ ok valid
    → u.policy_hash ≡ compute_policy_hash C u.policy
    → (accepted : Bool) × (message : RoleMessage) × (counts : Counts)
      × (verify_update_role_based_quorum C u roles requirements signer_allowlist
          ≡ ok (accepted, message, counts))
      × ((accepted ≡ true) ↔ All (Meets roles valid) requirements)
unfolding verify_update_role_based_quorum valid_signers credit
roles_lem C u roles requirements signer_allowlist valid h same =
    let payload = payload_for_signing u in
    let allow = allow_set signer_allowlist in
    let start = start_from [] requirements in
    let final = credit roles start valid in
    let (v, hv, rest) = bind-returns (collect_signers C payload allow u.signatures []) _ h in
    let listed = count_all_lem C payload allow roles u.signatures start [] v hv in
    let legacy_too = count_all_lem C payload allow roles (legacy C u) start v valid rest in
    let hash_ok = (eq_iff u.policy_hash (compute_policy_hash C u.policy)).1 same in
    let verdict = roles_verdict (missing_roles final requirements) final in
    (
      verdict.0,
      verdict.1,
      verdict.2,
      ground (arith, listed, legacy_too, hash_ok),
      (
        λ e. (lacks-Meets roles valid final requirements (credit-All roles requirements valid)).0 (
            (missing-none_iff final requirements).0
              ((verdict_iff (missing_roles final requirements) final).0 e)),
        λ w. (verdict_iff (missing_roles final requirements) final).1 (
            (missing-none_iff final requirements).1 (
              (lacks-Meets roles valid final requirements (credit-All roles requirements valid)).1
                w)),
      ),
    )
