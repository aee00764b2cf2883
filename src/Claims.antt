-- ===== src/Claims.antt =====
-- links/claims.py: bundles of claims, their identifiers and signatures. The weight of an edge is a JSON
-- value. `accepts_signature` is false where PyNaCl raises ValueError for a signature of a wrong length,
-- which the code does not catch.
pub mod Signed
pub mod Store
pub mod Quarantine
use policy_mesh.Update.{value_error, bad_key, ◌>>=◌}
use policy_mesh.Prelude.{
  false, map, ◌==◌, [], if◌then◌else◌, none, Bool, some, zero, List, Option, suc, String, ℕ,
}
use policy_mesh.Update.{binascii_error, ok, raise, Result, Crypto}
use policy_mesh.Prelude.Int.{ℤ}
use policy_mesh.Json.{Value}
use policy_mesh.Update.Signing.{SigningKey}
use policy_mesh.Feed.Manifest.{signed_by}

pub record Claim : Type 0 where
  pub issuer : String
  pub subject : String
  pub predicate : String
  pub object : Option String
  pub value : Value
  pub window_days : ℤ
  pub computed_at : ℕ
  pub derivation : Option String
  pub evidence : List String

-- The model has no field for a village: one that a file names is dropped when the file is read.
pub record ClaimBundle : Type 0 where
  pub bundle_id : String
  pub issuer : String
  pub created_at : ℕ
  pub window_days : ℤ
  pub claims : List Claim
  pub signature_alg : String
  pub public_key : Option String
  pub signature : Option String

-- The dict that is signed.
pub record BundlePayload : Type 0 where
  pub bundle_id : String
  pub issuer : String
  pub created_at : ℕ
  pub window_days : ℤ
  pub claims : List Claim
  pub signature_alg : String

unfoldable pub bundle_payload_for_signing : ClaimBundle → BundlePayload
bundle_payload_for_signing bundle = record {
  bundle_id = bundle.bundle_id;
  issuer = bundle.issuer;
  created_at = bundle.created_at;
  window_days = bundle.window_days;
  claims = bundle.claims;
  signature_alg = bundle.signature_alg;
}

-- `s[:n]`
unfoldable pub prefix_of : ℕ → String → String
prefix_of zero s = ""
prefix_of (suc n) String.[] = ""
prefix_of (suc n) (String.◌∷◌ c s) = String.◌∷◌ c (prefix_of n s)

-- What `Link.model_validate` reads of an edge.
pub record Link : Type 0 where
  pub from_entity_id : String
  pub to_entity_id : String
  pub weight : Value

-- hashlib, base64, PyNaCl, and the canonical JSON of a payload.
module _ (C : Crypto) (bundle_json : BundlePayload → List ℕ) where
  unfoldable pub compute_bundle_id : BundlePayload → String
  unfolding prefix_of
  compute_bundle_id payload =
      prefix_of 32 (C.sha256_hex (bundle_json (record payload { bundle_id = "" })))

  unfoldable pub build_bundle_from_edges :
      List Link → String → ℤ → String → Option String → ℕ → ClaimBundle
  unfolding bundle_payload_for_signing compute_bundle_id
  build_bundle_from_edges edges issuer window_days predicate derivation now =
      let claims = map (λ link. claim_of link) edges in
      let provisional : ClaimBundle = record {
        bundle_id = "";
        issuer = issuer;
        created_at = now;
        window_days = window_days;
        claims = claims;
        signature_alg = "Ed25519";
        public_key = none;
        signature = none;
      } in
      record provisional { bundle_id = compute_bundle_id (bundle_payload_for_signing provisional) }
    where
      claim_of : Link → Claim
      claim_of link = record {
        issuer = issuer;
        subject = link.from_entity_id;
        predicate = predicate;
        object = some link.to_entity_id;
        value = link.weight;
        window_days = window_days;
        computed_at = now;
        derivation = derivation;
        evidence = [];
      }

  unfoldable pub sign_bundle : (List ℕ → String) → ClaimBundle → SigningKey → ClaimBundle
  unfolding bundle_payload_for_signing
  sign_bundle b64encode bundle key = record bundle {
    public_key = some (b64encode key.verify_key);
    signature = some (b64encode (key.sign (bundle_json (bundle_payload_for_signing bundle))));
  }

  bundle_bytes : String → Result (List ℕ)
  bundle_bytes s = elim (C.b64decode s) [ none ↦ raise binascii_error | some bytes ↦ ok bytes ]

  -- `VerifyKey(...)` and the `try` block
  unfoldable pub verify_bytes : (List ℕ → Bool) → List ℕ → List ℕ → String → Result Bool
  unfolding bundle_bytes
  verify_bytes accepts_signature key message sig = do
    signature ← if C.accepts_key key then bundle_bytes sig else raise bad_key
    if accepts_signature signature then ok (C.verify key message signature) else raise value_error

  unfoldable pub verify_signed : (List ℕ → Bool) → ClaimBundle → String × String → Result Bool
  unfolding verify_bytes bundle_bytes bundle_payload_for_signing compute_bundle_id
  verify_signed accepts_signature bundle (key, sig) =
      let payload = bundle_payload_for_signing bundle in
      if bundle.bundle_id == compute_bundle_id payload
      then (do
        bytes ← bundle_bytes key
        verify_bytes accepts_signature bytes (bundle_json payload) sig)
      else ok false

  unfoldable pub verify_bundle : (List ℕ → Bool) → ClaimBundle → Result Bool
  unfolding verify_signed signed_by
  verify_bundle accepts_signature bundle = elim (signed_by bundle.public_key bundle.signature) [
    | none ↦ ok false
    | some pair ↦ verify_signed accepts_signature bundle pair
  ]
