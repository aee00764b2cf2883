-- ===== src/Feed/Manifest.antt =====
-- links/policy_feed.py: the manifest of a feed, its signature, and what a village's policy wants of
-- it. Digests are bytes, and `hex` writes them. `accepts_signature` is false where PyNaCl raises
-- ValueError for a signature of a wrong length, which the code does not catch.
pub mod Binding
pub mod Trust
use policy_mesh.Prelude.{
  contains, true, false, is_empty, length, ◌&&◌, get_last?, not, truthy, ◌||◌, if◌then◌else◌, map,
  none, zero, some, suc, ◌++◌, Bool, [], ◌∷◌, List, Option, String, ℕ,
}
use policy_mesh.Json.Read.{get_texts}
use policy_mesh.Update.{
  value_error, bad_key, binascii_error, ok, raise, ◌>>=◌, Result, compute_update_hash,
  VillagePolicyUpdate, Crypto,
}
use policy_mesh.Feed.Order.{sort}
use policy_mesh.Prelude.Int.{ℤ}
use policy_mesh.Json.{Entries, flag}
use policy_mesh.Update.Signing.{SigningKey}
use policy_mesh.Feed.Merkle.{merkle_root}

pub record ManifestItem : Type 0 where
  pub created_at : ℕ
  pub policy_hash : String
  pub update_hash : String
  pub previous_policy_hash : Option String
  pub lifecycle_state : String
  pub activation_time : Option ℕ
  pub activation_height : Option ℤ

pub record PolicyFeedManifest : Type 0 where
  pub village_id : String
  pub generated_at : ℕ
  pub head_policy_hash : Option String
  pub count : ℕ
  pub merkle_root : String
  pub chain_head : String
  pub items : List ManifestItem
  pub signature_alg : String
  pub signer_public_key : Option String
  pub signature : Option String

-- The dict that is signed: the manifest without its signer and signature.
pub record ManifestPayload : Type 0 where
  pub village_id : String
  pub generated_at : ℕ
  pub head_policy_hash : Option String
  pub count : ℕ
  pub merkle_root : String
  pub chain_head : String
  pub items : List ManifestItem
  pub signature_alg : String

unfoldable pub manifest_payload : PolicyFeedManifest → ManifestPayload
manifest_payload m = record {
  village_id = m.village_id;
  generated_at = m.generated_at;
  head_policy_hash = m.head_policy_hash;
  count = m.count;
  merkle_root = m.merkle_root;
  chain_head = m.chain_head;
  items = m.items;
  signature_alg = m.signature_alg;
}

pub data ManifestMessage : Type 0 where
  unsigned_manifest : ManifestMessage
  signer_not_trusted : ManifestMessage
  manifest_signature_invalid : ManifestMessage
  manifest_ok : ManifestMessage
  unsigned_rejected : ManifestMessage
  unsigned_accepted : ManifestMessage
  verified_by_trusted : String → ManifestMessage
  verified_by_unpinned : String → ManifestMessage

-- What `manifest_trust_policy` reads.
pub record ManifestTrust : Type 0 where
  pub trusted_signer_key_hashes : List String
  pub require_signature : Bool
  pub require_trusted_signer : Bool

unfoldable pub manifest_trust_policy : Entries → ManifestTrust
unfolding get_texts flag
manifest_trust_policy policy = record {
  trusted_signer_key_hashes = get_texts "trusted_manifest_signer_allowlist" policy;
  require_signature = flag "require_manifest_signature" policy;
  require_trusted_signer = flag "require_trusted_manifest_signer" policy;
}

-- `m.signer_public_key and m.signature`
unfoldable pub signed_by : Option String → Option String → Option (String × String)
signed_by (some key) (some sig) = if truthy key && truthy sig then some (key, sig) else none
signed_by _ _ = none

-- The running hash of the updates' digests.
unfoldable pub chain : (List ℕ → List ℕ) → List ℕ → List (List ℕ) → List ℕ
chain sha256 prev [] = prev
chain sha256 prev (uh ∷ rest) = chain sha256 (sha256 (prev ++ uh)) rest

-- 32 bytes of nought
abbrev pub chain_start : List ℕ
chain_start = noughts 32
  where
    noughts : ℕ → List ℕ
    noughts zero = []
    noughts (suc n) = 0 ∷ noughts n

module _ (C : Crypto) (manifest_json : ManifestPayload → List ℕ)
    (accepts_signature : List ℕ → Bool) where
  unfoldable pub b64_bytes : String → Result (List ℕ)
  b64_bytes s = elim (C.b64decode s) [ none ↦ raise binascii_error | some bytes ↦ ok bytes ]

  -- `VerifyKey(...)` and the `try` block
  unfoldable pub check_bytes : List ℕ → List ℕ → String → Result (Bool × ManifestMessage)
  unfolding b64_bytes
  check_bytes key message sig = do
    signature ← if C.accepts_key key then b64_bytes sig else raise bad_key
    let verdict =
        if C.verify key message signature
        then (true, manifest_ok)
        else (false, manifest_signature_invalid)
    if accepts_signature signature then ok verdict else raise value_error

  unfoldable pub check_manifest :
      List String → List ℕ → String × String → Result (Bool × ManifestMessage)
  unfolding check_bytes
  check_manifest trusted message (key, sig) = do
    bytes ← b64_bytes key
    let distrusted = not (is_empty trusted) && not (contains (C.sha256_hex bytes) trusted)
    if distrusted then ok (false, signer_not_trusted) else check_bytes bytes message sig

  unfoldable pub verify_manifest :
      PolicyFeedManifest → List String → Result (Bool × ManifestMessage)
  unfolding check_manifest signed_by manifest_payload
  verify_manifest m trusted = elim (signed_by m.signer_public_key m.signature) [
    | none ↦ ok (false, unsigned_manifest)
    | some pair ↦ check_manifest trusted (manifest_json (manifest_payload m)) pair
  ]

  -- what is done with the answer of `verify_manifest`
  unfoldable pub trust_answer :
      ManifestTrust → String → Bool × ManifestMessage → Bool × ManifestMessage
  trust_answer trust signer_hash (good, message) =
      let trusted = trust.trusted_signer_key_hashes in
      if not good
      then (false, message)
      else if trust.require_trusted_signer
          && (not (is_empty trusted) && not (contains signer_hash trusted))
      then (false, signer_not_trusted)
      else if not (is_empty trusted) && contains signer_hash trusted
      then (true, verified_by_trusted signer_hash)
      else (true, verified_by_unpinned signer_hash)

  -- the part for a manifest with a signer and a signature
  unfoldable pub trust_signed :
      ManifestTrust → List ℕ → String × String → Result (Bool × ManifestMessage)
  unfolding check_manifest b64_bytes trust_answer
  trust_signed trust message (key, sig) = do
    bytes ← b64_bytes key
    answer ← check_manifest [] message (key, sig)
    ok (trust_answer trust (C.sha256_hex bytes) answer)

  unfoldable pub trust_pair :
      ManifestTrust → List ℕ → Option (String × String) → Result (Bool × ManifestMessage)
  unfolding trust_signed
  trust_pair trust message none =
      if trust.require_signature || trust.require_trusted_signer
      then ok (false, unsigned_rejected)
      else ok (true, unsigned_accepted)
  trust_pair trust message (some pair) = trust_signed trust message pair

  unfoldable pub verify_manifest_against_policy :
      Entries → PolicyFeedManifest → Result (Bool × ManifestMessage)
  unfolding manifest_trust_policy trust_pair signed_by manifest_payload
  verify_manifest_against_policy policy m =
      trust_pair (manifest_trust_policy policy) (manifest_json (manifest_payload m))
        (signed_by m.signer_public_key m.signature)

  unfoldable pub sign_manifest :
      (List ℕ → String) → PolicyFeedManifest → SigningKey → PolicyFeedManifest
  unfolding manifest_payload
  sign_manifest b64encode m signing_key = record m {
    signer_public_key = some (b64encode signing_key.verify_key);
    signature = some (b64encode (signing_key.sign (manifest_json (manifest_payload m))));
  }

abbrev pub manifest_item : Crypto → VillagePolicyUpdate → ManifestItem
manifest_item C u = record {
  created_at = u.created_at;
  policy_hash = u.policy_hash;
  update_hash = compute_update_hash C u;
  previous_policy_hash = u.previous_policy_hash;
  lifecycle_state = u.lifecycle_state;
  activation_time = u.activation_time;
  activation_height = u.activation_height;
}

-- The updates of the village are given as they are stored.
unfoldable pub build_policy_feed_manifest :
    Crypto
    → (List ℕ → List ℕ)
    → (List ℕ → String)
    → (String → List ℕ)
    → List VillagePolicyUpdate
    → String
    → ℕ
    → PolicyFeedManifest
unfolding chain sort
build_policy_feed_manifest C sha256 hex unhex stored village_id now =
    let ups = sort stored in
    let digests = map (λ u. unhex (compute_update_hash C u)) ups in
    record {
      village_id = village_id;
      generated_at = now;
      head_policy_hash = head_of (get_last? ups);
      count = length ups;
      merkle_root = hex (merkle_root sha256 digests);
      chain_head = hex (chain sha256 chain_start digests);
      items = map (manifest_item C) ups;
      signature_alg = "Ed25519";
      signer_public_key = none;
      signature = none;
    }
  where
    head_of : Option VillagePolicyUpdate → Option String
    head_of none = none
    head_of (some u) = some u.policy_hash
