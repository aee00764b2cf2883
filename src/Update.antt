-- ===== src/Update.antt =====
-- links/policy_updates.py: the update artifact, its hashes and one signature's check.
pub mod Quorum
pub mod Signing
pub mod Weighted
pub mod Roles
use policy_mesh.Prelude.{
  map, refl, ◌≡◌, ℕ, String, Bool, true, false, not, ◌&&◌, Option, none, some, List, [], ◌∷◌, ◌==◌,
  truthy, truthy?, contains, add, eq_ignoring_case, if◌then◌else◌,
}
use policy_mesh.Prelude.Int.{ℤ}
use policy_mesh.Json.{Value}

pub record SignatureEntry : Type 0 where
  pub public_key : String
  pub signature : String
  pub alg : String

pub record QuorumRequirement : Type 0 where
  pub role : String
  pub min_signers : ℤ

-- A required weight is a whole number here.
pub record QuorumMetadata : Type 0 where
  pub model : String
  pub threshold_m : Option ℤ
  pub required_weight : Option ℤ
  pub requirements : List QuorumRequirement

pub record PolicyChangeSummary : Type 0 where
  pub added : List String
  pub removed : List String
  pub changed : List String

-- Times are instants, counted from one origin.
pub record VillagePolicyUpdate : Type 0 where
  pub village_id : String
  pub created_at : ℕ
  pub actor : Option String
  pub authority_context : Option Value
  pub expires_at : Option ℕ
  pub policy : Value
  pub policy_hash : String
  pub policy_version_id : Option String
  pub lifecycle_state : String
  pub previous_policy_hash : Option String
  pub rollback_to_policy_hash : Option String
  pub activation_time : Option ℕ
  pub activation_height : Option ℤ
  pub quorum : Option QuorumMetadata
  pub change_summary : Option PolicyChangeSummary
  pub signature_alg : String
  pub public_key : Option String
  pub signature : Option String
  pub signatures : List SignatureEntry

abbrev pub policy_hashes : List VillagePolicyUpdate → List String
policy_hashes = map (λ u. u.policy_hash)

-- The dict that is signed: the update without `public_key`, `signature` and `signatures`.
pub record Payload : Type 0 where
  pub village_id : String
  pub created_at : ℕ
  pub actor : Option String
  pub authority_context : Option Value
  pub expires_at : Option ℕ
  pub policy : Value
  pub policy_hash : String
  pub policy_version_id : Option String
  pub lifecycle_state : String
  pub previous_policy_hash : Option String
  pub rollback_to_policy_hash : Option String
  pub activation_time : Option ℕ
  pub activation_height : Option ℤ
  pub quorum : Option QuorumMetadata
  pub change_summary : Option PolicyChangeSummary
  pub signature_alg : String

unfoldable pub payload_for_signing : VillagePolicyUpdate → Payload
payload_for_signing u = record {
  village_id = u.village_id;
  created_at = u.created_at;
  actor = u.actor;
  authority_context = u.authority_context;
  expires_at = u.expires_at;
  policy = u.policy;
  policy_hash = u.policy_hash;
  policy_version_id = u.policy_version_id;
  lifecycle_state = u.lifecycle_state;
  previous_policy_hash = u.previous_policy_hash;
  rollback_to_policy_hash = u.rollback_to_policy_hash;
  activation_time = u.activation_time;
  activation_height = u.activation_height;
  quorum = u.quorum;
  change_summary = u.change_summary;
  signature_alg = u.signature_alg;
}

-- hashlib, base64, PyNaCl, and the bytes that pydantic and json make of a policy and of a payload.
-- Decoding base64 may raise; a `VerifyKey` may refuse its bytes; `verify` is false where PyNaCl
-- raises `BadSignatureError`, `ValueError` or `TypeError`.
pub record Crypto : Type 0 where
  pub sha256_hex : List ℕ → String
  pub b64decode : String → Option (List ℕ)
  pub accepts_key : List ℕ → Bool
  pub verify : List ℕ → List ℕ → List ℕ → Bool
  pub policy_json : Value → List ℕ
  pub payload_json : Payload → List ℕ

pub data Error : Type 0 where
  binascii_error : Error
  bad_key : Error
  validation_error : Error
  value_error : Error
  type_error : Error

-- A value, or an exception on its way up.
pub data Result {ℓ} (T : Type ℓ) : Type ℓ where
  raise : Error → Result T
  ok : T → Result T

infixl 5 ◌>>=◌
abbrev pub ◌>>=◌ {ℓ κ} : {S : Type ℓ} {T : Type κ} → Result S → (S → Result T) → Result T
raise problem >>= next = raise problem
ok value >>= next = next value

-- What a step that returned has handed to the next one.
pub bind-returns {ℓ κ} :
    {S : Type ℓ} {T : Type κ} (before : Result S) (next : S → Result T) {last : T}
    → (before >>= next) ≡ ok last
    → (between : S) × (before ≡ ok between) × (next between ≡ ok last)
bind-returns (raise problem) next stopped = cc
bind-returns (ok between) next went_on = (between, refl, went_on)

module _ (C : Crypto) where
  unfoldable pub compute_policy_hash : Value → String
  compute_policy_hash policy = C.sha256_hex (C.policy_json policy)

  unfoldable pub compute_update_hash : VillagePolicyUpdate → String
  unfolding payload_for_signing
  compute_update_hash u = C.sha256_hex (C.payload_json (payload_for_signing u))

  abbrev decode : String → Result (List ℕ)
  decode s = elim (C.b64decode s) [ none ↦ raise binascii_error | some bytes ↦ ok bytes ]

  unfoldable pub key_hash_from_public_key_b64 : String → Result String
  key_hash_from_public_key_b64 public_key = do bytes ← decode public_key; ok (C.sha256_hex bytes)

  -- the `try` block: a signature that is not base64 is a wrong one
  abbrev check : List ℕ → Payload → Option (List ℕ) → Bool
  check key payload none = false
  check key payload (some sig) = C.verify key (C.payload_json payload) sig

  unfoldable pub verify_one : Payload → String → String → String → Result Bool
  unfolding eq_ignoring_case
  verify_one payload public_key signature alg =
      if not (eq_ignoring_case (if truthy alg then alg else "ed25519") "ed25519")
      then ok false
      else do
        key ← decode public_key
        if C.accepts_key key then ok (check key payload (C.b64decode signature)) else raise bad_key

  -- the legacy pair, where `u.public_key and u.signature`
  abbrev pair : Option String → Option String → List SignatureEntry
  pair (some k) (some s) =
      if truthy k && truthy s
      then record { public_key = k; signature = s; alg = "ed25519" } ∷ []
      else []
  pair _ _ = []

  abbrev pub legacy : VillagePolicyUpdate → List SignatureEntry
  legacy u = pair u.public_key u.signature

  -- the loop of `verify_update_any`
  any_verifies : Payload → List SignatureEntry → Result Bool
  any_verifies payload [] = ok false
  any_verifies payload (e ∷ es) =
      let rest = any_verifies payload es in
      do good ← verify_one payload e.public_key e.signature e.alg; if good then ok true else rest

  unfoldable pub verify_update_any : VillagePolicyUpdate → Result Bool
  unfolding any_verifies payload_for_signing compute_policy_hash
  verify_update_any u = if not (u.policy_hash == compute_policy_hash u.policy) then ok false else do
    let payload = payload_for_signing u
    good ← any_verifies payload u.signatures
    if good then ok true else any_verifies payload (legacy u)
