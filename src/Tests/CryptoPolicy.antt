-- ===== src/Tests/CryptoPolicy.antt =====
-- Tests of links/crypto_policy.py.
use policy_mesh.CryptoPolicy.{
  is_supported, prohibited_or_unknown, state_among, state_for, permits, AlgorithmRule,
  AlgorithmState, supported, CryptographicPolicy,
}
use policy_mesh.Prelude.{refl, false, true, ◌≡◌, eq_ignoring_case, [], ◌∷◌, String}

abbrev rule : String → AlgorithmState → AlgorithmRule
rule name state = record { name = name; state = state; reason = "" }

abbrev defaults : CryptographicPolicy
defaults = record {
  default = "ed25519";
  algorithms = rule "ed25519" supported ∷ rule "ecdsa_p256" supported ∷ [];
}

-- Names are compared in any case, and an unknown one is not permitted.
known_permitted : permits defaults "Ed25519" ≡ (true, is_supported)
unfolding permits state_for state_among eq_ignoring_case
known_permitted = refl

unknown_refused : permits defaults "rsa" ≡ (false, prohibited_or_unknown)
unfolding permits state_for state_among eq_ignoring_case
unknown_refused = refl
