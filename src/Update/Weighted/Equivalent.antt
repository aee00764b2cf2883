-- ===== src/Update/Weighted/Equivalent.antt =====
-- The weighted check counts the signers of the M-of-N check.
use policy_mesh.Prelude.{
  eq_iff, inr, inl, not, Bool-cases, true, arith, refl, add, ◌≡◌, [], Option, ◌++◌, ◌∷◌, String,
  List,
}
use policy_mesh.Update.Weighted.{
  weight_ok, weight_not_met, WeightMessage, weight_of, count_weight, count_weights,
  verify_update_weighted_quorum,
}
use policy_mesh.Update.{
  legacy, payload_for_signing, verify_one, key_hash_from_public_key_b64, bind-returns,
  compute_policy_hash, ok, SignatureEntry, VillagePolicyUpdate, Payload, Crypto,
}
use policy_mesh.Update.Quorum.{blocked, allow_set, collect_signers, count_signer, valid_signers}
use policy_mesh.Prelude.Int.{ltb_ℤ, pos, ◌+ℤ◌, ℤ}

module _ (weights : List (String × ℤ)) where
  -- The sum of the weights of the keys.
  unfoldable pub total : ℤ → List String → ℤ
  total a [] = a
  total a (k ∷ ks) = total (a +ℤ weight_of weights k) ks

  total-snoc :
      (a : ℤ) (ks : List String) (k : String)
      → total a (ks ++ (k ∷ [])) ≡ total a ks +ℤ weight_of weights k
  unfolding total
  total-snoc a [] k = refl
  total-snoc a (j ∷ ks) k = total-snoc (a +ℤ weight_of weights j) ks k

module _ (C : Crypto) (payload : Payload) (allow : List String) (weights : List (String × ℤ)) where
  count_weight_lem :
      (e : SignatureEntry) (valid valid' : List String)
      → count_signer C payload allow e valid ≡ ok valid'
      → count_weight C payload allow weights e (total weights (pos 0) valid, valid)
        ≡ ok (total weights (pos 0) valid', valid')
  unfolding count_signer count_weight add
  count_weight_lem e valid valid' h =
      let (k, ek, h₁) = bind-returns (key_hash_from_public_key_b64 C e.public_key) _ h in
      elim (Bool-cases (blocked allow k)) [
        | inl b ↦ ground (arith, ek, h₁, b)
        | inr b ↦
            let (good, eg, h₂) =
              bind-returns (verify_one C payload e.public_key e.signature e.alg) _ (rw b at h₁) in
            ground (arith, ek, eg, h₂, b, total-snoc weights (pos 0) valid k)
      ]

  count_weights_lem :
      (es : List SignatureEntry) (valid valid' : List String)
      → collect_signers C payload allow es valid ≡ ok valid'
      → count_weights C payload allow weights es (total weights (pos 0) valid, valid)
        ≡ ok (total weights (pos 0) valid', valid')
  unfolding collect_signers count_weights
  count_weights_lem [] valid valid' h = ground (arith, h)
  count_weights_lem (e ∷ es) valid valid' h =
      let (v, hv, rest) = bind-returns (count_signer C payload allow e valid) _ h in
      ground (arith, count_weight_lem e valid v hv, count_weights_lem es v valid' rest)

-- Where the signers of the M-of-N check can be counted, the weighted check of an update whose hash
-- is right, with a threshold above zero, achieves the sum of their weights, and accepts exactly when
-- that is not below the threshold.
pub weighted_lem :
    (C : Crypto) (u : VillagePolicyUpdate) (weights : List (String × ℤ)) (required_weight : ℤ)
    (signer_allowlist : Option (List String)) (valid : List String)
    → valid_signers C u (allow_set signer_allowlist) ≡ ok valid
    → u.policy_hash ≡ compute_policy_hash C u.policy
    → ltb_ℤ (pos 0) required_weight ≡ true
    → let achieved = total weights (pos 0) valid in
      (message : WeightMessage) × (verify_update_weighted_quorum C u weights required_weight
          signer_allowlist
        ≡ ok (not (ltb_ℤ achieved required_weight), message, achieved))
unfolding verify_update_weighted_quorum valid_signers total
weighted_lem C u weights required_weight signer_allowlist valid h same above =
    let payload = payload_for_signing u in
    let allow = allow_set signer_allowlist in
    let (v, hv, rest) = bind-returns (collect_signers C payload allow u.signatures []) _ h in
    let listed = count_weights_lem C payload allow weights u.signatures [] v hv in
    let legacy_too = count_weights_lem C payload allow weights (legacy C u) v valid rest in
    let hash_ok = (eq_iff u.policy_hash (compute_policy_hash C u.policy)).1 same in
    elim (Bool-cases (ltb_ℤ (total weights (pos 0) valid) required_weight)) [
      | inl low ↦ (
        weight_not_met (total weights (pos 0) valid) required_weight,
        ground (arith, listed, legacy_too, hash_ok, above, low),
      )
      | inr enough ↦ (weight_ok, ground (arith, listed, legacy_too, hash_ok, above, enough))
    ]
