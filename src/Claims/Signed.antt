-- ===== src/Claims/Signed.antt =====
-- links/claims.py: a bundle that is built, signed and checked.
use policy_mesh.Update.{ok, Crypto}
use policy_mesh.Claims.{
  ClaimBundle, Link, bundle_payload_for_signing, compute_bundle_id, build_bundle_from_edges,
  sign_bundle, bundle_bytes, verify_bytes, verify_signed, verify_bundle, BundlePayload,
}
use policy_mesh.Prelude.{
  ap, arith, eq_iff, refl, some, truthy, true, ◌≡◌, Option, String, Bool, ℕ, List,
}
use policy_mesh.Update.Signing.{IsSound, SigningKey}
use policy_mesh.Feed.Manifest.{signed_by}
use policy_mesh.Prelude.Int.{ℤ}

module _ (C : Crypto) (bundle_json : BundlePayload → List ℕ) (accepts_signature : List ℕ → Bool)
    (b64encode : List ℕ → String) (k : SigningKey) where
  signed_pair :
      (x y : String) → truthy x ≡ true → truthy y ≡ true → signed_by (some x) (some y) ≡ some (x, y)
  unfolding signed_by
  signed_pair x y p q = ground (arith, p, q)

  verify_bytes_lem :
      (key message sig : List ℕ) (text : String)
      → C.accepts_key key ≡ true
      → C.b64decode text ≡ some sig
      → accepts_signature sig ≡ true
      → C.verify key message sig ≡ true
      → verify_bytes C bundle_json accepts_signature key message text ≡ ok true
  unfolding verify_bytes bundle_bytes
  verify_bytes_lem key message sig text a d l v = rw a (rw (bundle_bytes, d) (rw l (ap ok v)))

  verify_signed_lem :
      (b : ClaimBundle) (key sig : String) (bytes : List ℕ)
      → b.bundle_id ≡ compute_bundle_id C bundle_json (bundle_payload_for_signing b)
      → C.b64decode key ≡ some bytes
      → verify_bytes C bundle_json accepts_signature bytes
          (bundle_json (bundle_payload_for_signing b))
          sig
        ≡ ok true
      → verify_signed C bundle_json accepts_signature b (key, sig) ≡ ok true
  unfolding verify_signed bundle_bytes
  verify_signed_lem b key sig bytes e d v =
      rw ((eq_iff b.bundle_id (compute_bundle_id C bundle_json (bundle_payload_for_signing b))).1 e)
        (rw (bundle_bytes, d) v)

  verify-sign_lem :
      (b : ClaimBundle)
      → b.bundle_id ≡ compute_bundle_id C bundle_json (bundle_payload_for_signing b)
      → IsSound C b64encode k
      → ((message : List ℕ) → accepts_signature (k.sign message) ≡ true)
      → (truthy (b64encode k.verify_key) ≡ true)
      → ((message : List ℕ) → truthy (b64encode (k.sign message)) ≡ true)
      → verify_bundle C bundle_json accepts_signature (sign_bundle C bundle_json b64encode b k)
        ≡ ok true
  unfolding verify_bundle sign_bundle bundle_payload_for_signing
  verify-sign_lem b e s a p t =
      let message = bundle_json (bundle_payload_for_signing b) in
      rw
        (
          verify_bundle,
          signed_pair (b64encode k.verify_key) (b64encode (k.sign message)) p (t message),
        )
        (verify_signed_lem (sign_bundle C bundle_json b64encode b k) (b64encode k.verify_key)
          (b64encode (k.sign message)) k.verify_key e s.decodes_key
          (verify_bytes_lem k.verify_key message (k.sign message) (b64encode (k.sign message))
            s.accepts (s.decodes_signature message) (a message) (s.verifies message)))

  -- A bundle that is built of edges and signed by a sound key, with a signature of the right length and
  -- texts that are not empty, verifies.
  pub verify-sign_bundle :
      (edges : List Link) (issuer : String) (window_days : ℤ) (predicate : String)
      (derivation : Option String) (now : ℕ)
      → IsSound C b64encode k
      → ((message : List ℕ) → accepts_signature (k.sign message) ≡ true)
      → (truthy (b64encode k.verify_key) ≡ true)
      → ((message : List ℕ) → truthy (b64encode (k.sign message)) ≡ true)
      → verify_bundle C bundle_json accepts_signature (
          sign_bundle C bundle_json b64encode
            (build_bundle_from_edges C bundle_json edges issuer window_days predicate derivation
              now)
            k)
        ≡ ok true
  unfolding build_bundle_from_edges compute_bundle_id bundle_payload_for_signing
  verify-sign_bundle edges issuer window_days predicate derivation now s a p t =
      verify-sign_lem
        (build_bundle_from_edges C bundle_json edges issuer window_days predicate derivation now)
        refl s a p t
