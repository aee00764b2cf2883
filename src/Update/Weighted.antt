-- ===== src/Update/Weighted.antt =====
-- links/policy_updates.py: the weighted check of an update's signatures. A weight is a whole number
-- here, so that sums are exact.
pub mod Equivalent
use policy_mesh.Update.{
  legacy, payload_for_signing, compute_policy_hash, verify_one, key_hash_from_public_key_b64, ok,
  ◌>>=◌, Result, SignatureEntry, Payload, VillagePolicyUpdate, Crypto,
}
use policy_mesh.Prelude.Int.{◌+ℤ◌, ltb_ℤ, pos, ℤ}
use policy_mesh.Prelude.{
  true, add, false, ◌||◌, [], contains, not, ◌==◌, if◌then◌else◌, ◌∷◌, Bool, Option, String, List,
}
use policy_mesh.Update.Quorum.{allow_set, blocked}

pub data WeightMessage : Type 0 where
  weight_ok : WeightMessage
  invalid_weight_threshold : WeightMessage
  weight_hash_mismatch : WeightMessage
  weight_not_met : ℤ → ℤ → WeightMessage

-- `weights_by_key_hash.get(kh, 0.0)`
unfoldable pub weight_of : List (String × ℤ) → String → ℤ
weight_of [] kh = pos 0
weight_of ((k, w) ∷ rest) kh = let later = weight_of rest kh in if k == kh then w else later

module _ (C : Crypto) (payload : Payload) (allow : List String) (weights : List (String × ℤ)) where
  -- `maybe_count`, on what it adds to: the achieved weight and the counted keys
  unfoldable pub count_weight : SignatureEntry → ℤ × List String → Result (ℤ × List String)
  count_weight e (achieved, counted) = do
    kh ← key_hash_from_public_key_b64 C e.public_key
    if contains kh counted || blocked allow kh then ok (achieved, counted) else do
      good ← verify_one C payload e.public_key e.signature e.alg
      ok (if good then (achieved +ℤ weight_of weights kh, add kh counted) else (achieved, counted))

  unfoldable pub count_weights : List SignatureEntry → ℤ × List String → Result (ℤ × List String)
  unfolding count_weight
  count_weights [] state = ok state
  count_weights (e ∷ es) state = do state' ← count_weight e state; count_weights es state'

module _ (C : Crypto) where
  unfoldable pub verify_update_weighted_quorum :
      VillagePolicyUpdate
      → List (String × ℤ)
      → ℤ
      → Option (List String)
      → Result (Bool × WeightMessage × ℤ)
  unfolding weight_of count_weights
  verify_update_weighted_quorum u weights required_weight signer_allowlist =
      if not (ltb_ℤ (pos 0) required_weight)
      then ok (false, invalid_weight_threshold, pos 0)
      else if not (u.policy_hash == compute_policy_hash C u.policy)
      then ok (false, weight_hash_mismatch, pos 0)
      else do
        let payload = payload_for_signing u
        let allow = allow_set signer_allowlist
        state ← count_weights C payload allow weights u.signatures (pos 0, [])
        final ← count_weights C payload allow weights (legacy C u) state
        let achieved = final.0
        ok (
            if not (ltb_ℤ achieved required_weight)
            then (true, weight_ok, achieved)
            else (false, weight_not_met achieved required_weight, achieved))
