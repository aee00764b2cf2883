-- ===== src/Update/Quorum.antt =====
-- links/policy_updates.py: the M-of-N check of an update's signatures.
pub mod Sound
use policy_mesh.Prelude.{
  ℕ, String, Bool, true, false, not, ◌&&◌, Option, none, some, List, [], ◌∷◌, ◌==◌, leb, length,
  contains, add, if◌then◌else◌,
}
use policy_mesh.Prelude.Int.{ℤ, pos, negsuc, ltb_ℤ}
use policy_mesh.Update.{
  Crypto, SignatureEntry, VillagePolicyUpdate, Payload, payload_for_signing, compute_policy_hash,
  key_hash_from_public_key_b64, verify_one, legacy, Result, ok, raise, ◌>>=◌,
}

pub data QuorumMessage : Type 0 where
  quorum_ok : QuorumMessage
  invalid_quorum_threshold : QuorumMessage
  policy_hash_mismatch : QuorumMessage
  quorum_not_met : ℕ → ℤ → QuorumMessage

-- `allow and kh not in allow`
abbrev pub blocked : List String → String → Bool
blocked [] kh = false
blocked (a ∷ allow) kh = not (contains kh (a ∷ allow))

-- `set(signer_allowlist or [])`
abbrev pub allow_set : Option (List String) → List String
allow_set none = []
allow_set (some xs) = xs

-- `len(valid_signers) >= required_m`
abbrev pub reaches : ℕ → ℤ → Bool
reaches n (pos m) = leb m n
reaches n (negsuc m) = true

abbrev pub verdict : ℕ → ℤ → Bool × QuorumMessage
verdict n required_m =
    if reaches n required_m then (true, quorum_ok) else (false, quorum_not_met n required_m)

module _ (C : Crypto) (payload : Payload) (allow : List String) where
  -- the body of the loop
  unfoldable pub count_signer : SignatureEntry → List String → Result (List String)
  count_signer e valid = do
    kh ← key_hash_from_public_key_b64 C e.public_key
    if blocked allow kh then ok valid else do
      good ← verify_one C payload e.public_key e.signature e.alg
      ok (if good then add kh valid else valid)

  unfoldable pub collect_signers : List SignatureEntry → List String → Result (List String)
  unfolding count_signer
  collect_signers [] valid = ok valid
  collect_signers (e ∷ es) valid = do valid' ← count_signer e valid; collect_signers es valid'

module _ (C : Crypto) where
  unfoldable pub valid_signers : VillagePolicyUpdate → List String → Result (List String)
  valid_signers u allow = do
    let payload = payload_for_signing u
    valid ← collect_signers C payload allow u.signatures []
    collect_signers C payload allow (legacy C u) valid

  unfoldable pub verify_update_quorum :
      VillagePolicyUpdate → ℤ → Option (List String) → Result (Bool × QuorumMessage)
  verify_update_quorum u required_m signer_allowlist =
      if ltb_ℤ required_m (pos 1)
      then ok (false, invalid_quorum_threshold)
      else if not (u.policy_hash == compute_policy_hash C u.policy)
      then ok (false, policy_hash_mismatch)
      else do
        valid ← valid_signers u (allow_set signer_allowlist)
        ok (verdict (length valid) required_m)
