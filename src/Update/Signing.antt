-- ===== src/Update/Signing.antt =====
-- links/policy_updates.py: building an update and signing it. An activation time is an instant that
-- has been read already, and quorum metadata is a record. A key of PyNaCl and base64's encoder are
-- parameters.
pub mod Laws
use policy_mesh.Update.{key_hash_from_public_key_b64, ◌>>=◌}
use policy_mesh.Update.{
  PolicyChangeSummary, ok, Payload, Result, VillagePolicyUpdate, payload_for_signing,
  QuorumMetadata, SignatureEntry, compute_policy_hash, Crypto,
}
use policy_mesh.Prelude.{
  ◌++◌, contains, ◌∷◌, [], true, truthy, if◌then◌else◌, none, ◌≡◌, some, ℕ, List, Option, String,
}
use policy_mesh.Json.{Value}
use policy_mesh.Prelude.Int.{ℤ}

-- A signing key: its public bytes, and what it signs.
pub record SigningKey : Type 0 where
  pub verify_key : List ℕ
  pub sign : List ℕ → List ℕ

-- base64 of the key and of its signatures is decoded to what was encoded; the key is accepted and
-- verifies what it has signed.
pub record IsSound (C : Crypto) (b64encode : List ℕ → String) (k : SigningKey) : Type 0 where
  pub decodes_key : C.b64decode (b64encode k.verify_key) ≡ some k.verify_key
  pub decodes_signature :
      (message : List ℕ) → C.b64decode (b64encode (k.sign message)) ≡ some (k.sign message)
  pub accepts : C.accepts_key k.verify_key ≡ true
  pub verifies : (message : List ℕ) → C.verify k.verify_key message (k.sign message) ≡ true

-- The arguments of `build_update`, with the clock's value.
pub record Draft : Type 0 where
  pub village_id : String
  pub policy : Value
  pub actor : Option String
  pub lifecycle_state : String
  pub previous_policy_hash : Option String
  pub activation_time : Option ℕ
  pub activation_height : Option ℤ
  pub policy_version_id : Option String
  pub quorum : Option QuorumMetadata
  pub quorum_metadata : Option QuorumMetadata
  pub change_summary : Option PolicyChangeSummary
  pub now : ℕ

-- `quorum if quorum is not None else quorum_metadata`
abbrev pub first_given : Option QuorumMetadata → Option QuorumMetadata → Option QuorumMetadata
first_given none q = q
first_given (some p) q = some p

-- `policy_version_id or ph`
abbrev pub or_hash : Option String → String → String
or_hash none h = h
or_hash (some v) h = if truthy v then v else h

module _ (C : Crypto) where
  unfoldable pub build_update : Draft → VillagePolicyUpdate
  unfolding compute_policy_hash
  build_update q =
      let ph = compute_policy_hash C q.policy in
      record {
        village_id = q.village_id;
        created_at = q.now;
        actor = q.actor;
        authority_context = none;
        expires_at = none;
        policy = q.policy;
        policy_hash = ph;
        policy_version_id = some (or_hash q.policy_version_id ph);
        lifecycle_state = q.lifecycle_state;
        previous_policy_hash = q.previous_policy_hash;
        rollback_to_policy_hash = none;
        activation_time = q.activation_time;
        activation_height = q.activation_height;
        quorum = first_given q.quorum q.quorum_metadata;
        change_summary = q.change_summary;
        signature_alg = "Ed25519";
        public_key = none;
        signature = none;
        signatures = [];
      }

  -- the loop over the signatures, which keeps the first entry of each key
  unfoldable pub keep_first :
      List SignatureEntry → List String → Result (List String × List SignatureEntry)
  keep_first [] seen = ok (seen, [])
  keep_first (e ∷ es) seen = do
    h ← key_hash_from_public_key_b64 C e.public_key
    let again = contains h seen
    (seen', out) ← keep_first es (if again then seen else h ∷ seen)
    ok (seen', if again then out else e ∷ out)

  module _ (b64encode : List ℕ → String) where
    unfoldable pub sign_update_legacy : VillagePolicyUpdate → SigningKey → VillagePolicyUpdate
    unfolding payload_for_signing
    sign_update_legacy u signing_key = record u {
      public_key = some (b64encode signing_key.verify_key);
      signature = some (b64encode (signing_key.sign (C.payload_json (payload_for_signing u))));
    }

    unfoldable pub new_entry : Payload → SigningKey → SignatureEntry
    new_entry payload signing_key = record {
      public_key = b64encode signing_key.verify_key;
      signature = b64encode (signing_key.sign (C.payload_json payload));
      alg = "ed25519";
    }

    unfoldable pub add_signature : VillagePolicyUpdate → SigningKey → Result VillagePolicyUpdate
    unfolding keep_first
    add_signature u signing_key = do
      let entry = new_entry (payload_for_signing u) signing_key
      (seen, out) ← keep_first u.signatures []
      h_new ← key_hash_from_public_key_b64 C entry.public_key
      ok (record u { signatures = if contains h_new seen then out else out ++ (entry ∷ []) })
