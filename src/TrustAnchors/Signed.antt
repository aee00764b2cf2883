-- ===== src/TrustAnchors/Signed.antt =====
-- links/trust_anchors.py: the signatures of an entry. Every exception of the check passes over the
-- signature; `verify` is false where PyNaCl raises.
use policy_mesh.TrustAnchors.{TrustAnchorEntry}
use policy_mesh.Update.{Crypto, SignatureEntry, Result, ok, ◌>>=◌, key_hash_from_public_key_b64}
use policy_mesh.Update.Signing.{SigningKey, IsSound, keep_first}
use policy_mesh.Prelude.{
  refl, ◌&&◌, ◌||◌, arith, some, ◌++◌, ◌∷◌, contains, false, if◌then◌else◌, none, true, Bool,
  Option, [], ◌≡◌, ℕ, List, String,
}

-- The dict that is signed: the entry without its signatures.
pub record AnchorPayload : Type 0 where
  pub village_id : String
  pub created_at : ℕ
  pub actor : Option String
  pub action : String
  pub anchor_id : String
  pub anchor_public_key : Option String
  pub anchor_key_hash : Option String
  pub previous_anchor_key_hash : Option String
  pub reason : Option String
  pub signature_alg : String

unfoldable pub payload_of : TrustAnchorEntry → AnchorPayload
payload_of e = record {
  village_id = e.village_id;
  created_at = e.created_at;
  actor = e.actor;
  action = e.action;
  anchor_id = e.anchor_id;
  anchor_public_key = e.anchor_public_key;
  anchor_key_hash = e.anchor_key_hash;
  previous_anchor_key_hash = e.previous_anchor_key_hash;
  reason = e.reason;
  signature_alg = e.signature_alg;
}

module _ (C : Crypto) (anchor_json : AnchorPayload → List ℕ) where
  -- one turn of the loop: whether it returns
  unfoldable pub is_valid : List ℕ → SignatureEntry → Bool
  is_valid message s = elim (C.b64decode s.public_key) [
    | none ↦ false
    | some key ↦ elim (C.b64decode s.signature) [
      | none ↦ false
      | some sig ↦ C.accepts_key key && C.verify key message sig
    ]
  ]

  unfoldable pub any_valid : List ℕ → List SignatureEntry → Bool
  unfolding is_valid
  any_valid message [] = false
  any_valid message (s ∷ ss) = is_valid message s || any_valid message ss

  unfoldable pub verify_anchor_entry_any : TrustAnchorEntry → Bool
  unfolding any_valid payload_of
  verify_anchor_entry_any e = any_valid (anchor_json (payload_of e)) e.signatures

  module _ (b64encode : List ℕ → String) where
    unfoldable pub anchor_signature : AnchorPayload → SigningKey → SignatureEntry
    anchor_signature payload k = record {
      public_key = b64encode k.verify_key;
      signature = b64encode (k.sign (anchor_json payload));
      alg = "ed25519";
    }

    unfoldable pub add_anchor_signature : TrustAnchorEntry → SigningKey → Result TrustAnchorEntry
    unfolding keep_first payload_of
    add_anchor_signature e signing_key = do
      let entry = anchor_signature (payload_of e) signing_key
      (seen, out) ← keep_first C e.signatures []
      kh_new ← key_hash_from_public_key_b64 C entry.public_key
      ok (record e { signatures = if contains kh_new seen then out else out ++ (entry ∷ []) })

    any_valid-last :
        (message : List ℕ) (ss : List SignatureEntry) (s : SignatureEntry)
        → is_valid message s ≡ true
        → any_valid message (ss ++ (s ∷ [])) ≡ true
    unfolding any_valid
    any_valid-last message [] s h = ground (arith, h)
    any_valid-last message (t ∷ ss) s h = ground (arith, any_valid-last message ss s h)

    signature-valid :
        (e : TrustAnchorEntry) (k : SigningKey)
        → IsSound C b64encode k
        → is_valid (anchor_json (payload_of e)) (anchor_signature (payload_of e) k) ≡ true
    unfolding is_valid anchor_signature
    signature-valid e k s = ground (
      arith,
      s.decodes_key,
      s.decodes_signature (anchor_json (payload_of e)),
      s.accepts,
      s.verifies (anchor_json (payload_of e)),
    )

    hash-anchor :
        (payload : AnchorPayload) (k : SigningKey)
        → IsSound C b64encode k
        → key_hash_from_public_key_b64 C (anchor_signature payload k).public_key
          ≡ ok (C.sha256_hex k.verify_key)
    unfolding anchor_signature key_hash_from_public_key_b64
    hash-anchor payload k s = ground (arith, s.decodes_key)

    -- An entry to which a sound key that has not signed it adds its signature verifies, and says what it
    -- said before.
    pub verify-add_anchor :
        (e : TrustAnchorEntry) (k : SigningKey) (seen : List String) (out : List SignatureEntry)
        → IsSound C b64encode k
        → keep_first C e.signatures [] ≡ ok (seen, out)
        → contains (C.sha256_hex k.verify_key) seen ≡ false
        → (f : TrustAnchorEntry) × (add_anchor_signature e k ≡ ok f)
          × (verify_anchor_entry_any f ≡ true)
          × (payload_of f ≡ payload_of e)
    unfolding add_anchor_signature verify_anchor_entry_any key_hash_from_public_key_b64
    verify-add_anchor e k seen out s kept fresh =
        let f : TrustAnchorEntry = record e {
          signatures = out ++ (anchor_signature (payload_of e) k ∷ []);
        } in
        (
          f,
          rw (kept, hash-anchor (payload_of e) k s, fresh) refl,
          any_valid-last (anchor_json (payload_of e)) out (anchor_signature (payload_of e) k)
              (signature-valid e k s),
          refl,
        )
