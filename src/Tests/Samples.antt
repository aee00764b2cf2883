-- ===== src/Tests/Samples.antt =====
-- Updates and a toy cryptography that the tests share.
use policy_mesh.Prelude.{
  false, some, nat_eq, ◌==◌, Bool, [], if◌then◌else◌, ◌∷◌, Option, none, true, ℕ, List, String,
}
use policy_mesh.Update.{Crypto, VillagePolicyUpdate}
use policy_mesh.Json.{null}

-- An update with this hash, parent and time, and no signature.
abbrev pub update_at : String → Option String → ℕ → VillagePolicyUpdate
update_at hash parent t = record {
  village_id = "ops";
  created_at = t;
  actor = none;
  authority_context = none;
  expires_at = none;
  policy = null;
  policy_hash = hash;
  policy_version_id = some hash;
  lifecycle_state = "proposal";
  previous_policy_hash = parent;
  rollback_to_policy_hash = none;
  activation_time = none;
  activation_height = none;
  quorum = none;
  change_summary = none;
  signature_alg = "Ed25519";
  public_key = none;
  signature = none;
  signatures = [];
}

abbrev pub digest : List ℕ → String
digest [] = "p"
digest (n ∷ _) = if nat_eq n 1 then "k1" else if nat_eq n 2 then "k2" else "k3"

abbrev pub decode : String → Option (List ℕ)
decode s = if s == "A" then some (1 ∷ []) else if s == "B" then some (2 ∷ []) else none

abbrev pub same_key : List ℕ → List ℕ → Bool
same_key (k ∷ _) (s ∷ _) = nat_eq k s
same_key _ _ = false

-- The key "A" signs by "A", and the key "B" by "B".
abbrev pub toy : Crypto
toy = record {
  sha256_hex = digest;
  b64decode = decode;
  accepts_key = λ _. true;
  verify = λ key _ sig. same_key key sig;
  policy_json = λ _. [];
  payload_json = λ _. [];
}

abbrev pub signed : VillagePolicyUpdate
signed = record (update_at "p" none 1) {
  signatures =
      record { public_key = "A"; signature = "A"; alg = "ed25519" }
      ∷ record { public_key = "A"; signature = "A"; alg = "" }
      ∷ record { public_key = "B"; signature = "B"; alg = "Ed25519" }
      ∷ [];
}
