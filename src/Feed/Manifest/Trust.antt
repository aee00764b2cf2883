-- ===== src/Feed/Manifest/Trust.antt =====
-- Which manifests a village's policy accepts.
use policy_mesh.Update.{bad_key, raise, bind-returns, ok, Crypto}
use policy_mesh.Feed.Manifest.{
  trust_pair, ManifestTrust, b64_bytes, check_bytes, trust_answer, trust_signed, manifest_ok,
  manifest_payload, signed_by, manifest_trust_policy, PolicyFeedManifest, ManifestMessage,
  sign_manifest, check_manifest, verify_manifest, verify_manifest_against_policy, ManifestPayload,
}
use policy_mesh.Prelude.{
  Option, refl, sym, ◌∷◌, ◌&&◌, ap, is_empty, not, ◌∙◌, inr, arith, if◌then◌else◌, inl, contains,
  ◌⊎◌, [], false, none, truthy, true, some, ◌≡◌, String, Bool, ℕ, List,
}
use policy_mesh.Json.{Entries}
use policy_mesh.Update.Signing.{IsSound, SigningKey}
use mathlib.Core.Option.{some-injective}
use mathlib.Core.Path.{subst}

Trusted-list :
    (trusted : List String) (kh : String)
    → (not (is_empty trusted) && not (contains kh trusted)) ≡ false
    → (trusted ≡ []) ⊎ (contains kh trusted ≡ true)
Trusted-list [] kh h = inl refl
Trusted-list (x ∷ xs) kh h = inr (ground (arith, h))

module _ (C : Crypto) (manifest_json : ManifestPayload → List ℕ)
    (accepts_signature : List ℕ → Bool) where
  -- The signature is one of the message by the key.
  abbrev pub SignedBy : String → String → List ℕ → List ℕ → Type 0
  SignedBy key sig message bytes =
      (C.b64decode key ≡ some bytes)
      × ((signature : List ℕ) × (C.b64decode sig ≡ some signature)
          × (C.verify bytes message signature ≡ true))

  bytes_lem :
      (s : String) (bytes : List ℕ)
      → b64_bytes C manifest_json accepts_signature s ≡ ok bytes
      → C.b64decode s ≡ some bytes
  unfolding b64_bytes
  bytes_lem s bytes h = ground (arith, h)

  check_bytes-SignedBy :
      (message : List ℕ) (bytes : List ℕ) (sig : String) (why : ManifestMessage)
      → check_bytes C manifest_json accepts_signature bytes message sig ≡ ok (true, why)
      → (signature : List ℕ) × (C.b64decode sig ≡ some signature)
        × (C.verify bytes message signature ≡ true)
  unfolding check_bytes
  check_bytes-SignedBy message bytes sig why h =
      let (signature, es, h₁) =
        bind-returns
          (if C.accepts_key bytes
            then b64_bytes C manifest_json accepts_signature sig
            else raise bad_key)
          _ h in
      let decoded : b64_bytes C manifest_json accepts_signature sig ≡ ok signature =
        ground (arith, es) in
      (signature, bytes_lem sig signature decoded, ground (arith, h₁))

  check-SignedBy :
      (trusted : List String) (message : List ℕ) (key sig : String) (why : ManifestMessage)
      → check_manifest C manifest_json accepts_signature trusted message (key, sig) ≡ ok (true, why)
      → (bytes : List ℕ) × SignedBy key sig message bytes
  unfolding check_manifest
  check-SignedBy trusted message key sig why h =
      let (bytes, eb, h₁) = bind-returns (b64_bytes C manifest_json accepts_signature key) _ h in
      let checked : check_bytes C manifest_json accepts_signature bytes message sig
          ≡ ok (true, why) =
        ground (arith, h₁) in
      (bytes, (bytes_lem key bytes eb, check_bytes-SignedBy message bytes sig why checked))

  -- An accepted signed manifest.
  abbrev pub Accepted : ManifestTrust → List ℕ → String → String → List ℕ → Type 0
  Accepted trust message key sig bytes =
      SignedBy key sig message bytes
      × (trust.require_trusted_signer ≡ true
          → (trust.trusted_signer_key_hashes ≡ [])
            ⊎ (contains (C.sha256_hex bytes) trust.trusted_signer_key_hashes ≡ true))

  answer-Trusted :
      (trust : ManifestTrust) (kh : String) (answer : Bool × ManifestMessage)
      (why : ManifestMessage)
      → trust_answer C manifest_json accepts_signature trust kh answer ≡ (true, why)
      → (answer.0 ≡ true)
        × (trust.require_trusted_signer ≡ true
            → (trust.trusted_signer_key_hashes ≡ [])
              ⊎ (contains kh trust.trusted_signer_key_hashes ≡ true))
  unfolding trust_answer
  answer-Trusted trust kh (good, message) why h = (
    ground (arith, h),
    λ wanted. Trusted-list trust.trusted_signer_key_hashes kh (ground (arith, h, wanted)),
  )

  pair_of_answer :
      (trust : ManifestTrust) (message : List ℕ) (key sig : String) (bytes : List ℕ)
      (answer : Bool × ManifestMessage) (why : ManifestMessage)
      → b64_bytes C manifest_json accepts_signature key ≡ ok bytes
      → check_manifest C manifest_json accepts_signature [] message (key, sig) ≡ ok answer
      → trust_answer C manifest_json accepts_signature trust (C.sha256_hex bytes) answer
        ≡ (true, why)
      → (found : List ℕ) × Accepted trust message key sig found
  pair_of_answer trust message key sig bytes answer why eb ea h =
      let (good, wanted) = answer-Trusted trust (C.sha256_hex bytes) answer why h in
      let (found, signed) =
        check-SignedBy [] message key sig answer.1 (ea ∙ ap (λ b. ok (b, answer.1)) good) in
      let same = some-injective bytes found (sym (bytes_lem key bytes eb) ∙ signed.0) in
      (
        found,
        (
          signed,
          subst
              (λ x.
                trust.require_trusted_signer ≡ true
                → (trust.trusted_signer_key_hashes ≡ [])
                  ⊎ (contains (C.sha256_hex x) trust.trusted_signer_key_hashes ≡ true))
              same wanted,
        ),
      )

  trust-SignedBy :
      (trust : ManifestTrust) (message : List ℕ) (key sig : String) (why : ManifestMessage)
      → trust_signed C manifest_json accepts_signature trust message (key, sig) ≡ ok (true, why)
      → (bytes : List ℕ) × Accepted trust message key sig bytes
  unfolding trust_signed
  trust-SignedBy trust message key sig why h =
      let (bytes, eb, h₁) = bind-returns (b64_bytes C manifest_json accepts_signature key) _ h in
      let (answer, ea, h₂) =
        bind-returns (check_manifest C manifest_json accepts_signature [] message (key, sig)) _
          h₁ in
      pair_of_answer trust message key sig bytes answer why eb ea (ground (arith, h₂))

  pair-Accepted :
      (trust : ManifestTrust) (message : List ℕ) (pair : Option (String × String))
      (why : ManifestMessage)
      → trust_pair C manifest_json accepts_signature trust message pair ≡ ok (true, why)
      → ((pair ≡ none) × (trust.require_signature ≡ false) × (trust.require_trusted_signer ≡ false))
        ⊎ ((key : String) × (sig : String) × (pair ≡ some (key, sig))
            × ((bytes : List ℕ) × Accepted trust message key sig bytes))
  unfolding trust_pair
  pair-Accepted trust message none why h = inl (refl, ground (arith, h), ground (arith, h))
  pair-Accepted trust message (some (key, sig)) why h =
      inr (key, sig, refl, trust-SignedBy trust message key sig why h)

  -- A manifest that a village accepts is unsigned, where the village wants neither a signature nor a
  -- trusted signer; or it has a signature that its key verifies, and where a trusted signer is wanted
  -- the key's hash is on the list, or the list is empty.
  pub against_policy_lem :
      (policy : Entries) (m : PolicyFeedManifest) (why : ManifestMessage)
      → verify_manifest_against_policy C manifest_json accepts_signature policy m ≡ ok (true, why)
      → let trust = manifest_trust_policy policy in
        ((signed_by m.signer_public_key m.signature ≡ none)
          × (trust.require_signature ≡ false)
          × (trust.require_trusted_signer ≡ false))
        ⊎ ((key : String) × (sig : String) × (signed_by m.signer_public_key m.signature
              ≡ some (key, sig))
            × ((bytes : List ℕ) × Accepted trust
                  (manifest_json (manifest_payload m))
                  key
                  sig
                  bytes))
  unfolding verify_manifest_against_policy
  against_policy_lem policy m why h =
      pair-Accepted (manifest_trust_policy policy) (manifest_json (manifest_payload m))
        (signed_by m.signer_public_key m.signature) why h

  -- A manifest verifies when a sound key has signed it, and its signatures have the right length.
  pub verify-sign_manifest :
      (b64encode : List ℕ → String) (m : PolicyFeedManifest) (k : SigningKey)
      → IsSound C b64encode k
      → (truthy (b64encode k.verify_key) ≡ true)
      → (truthy (b64encode (k.sign (manifest_json (manifest_payload m)))) ≡ true)
      → (accepts_signature (k.sign (manifest_json (manifest_payload m))) ≡ true)
      → verify_manifest C manifest_json accepts_signature
          (sign_manifest C manifest_json accepts_signature b64encode m k)
          []
        ≡ ok (true, manifest_ok)
  unfolding verify_manifest sign_manifest signed_by check_manifest check_bytes b64_bytes
  verify-sign_manifest b64encode m k s a b c = ground (
    arith,
    a,
    b,
    c,
    s.decodes_key,
    s.decodes_signature (manifest_json (manifest_payload m)),
    s.accepts,
    s.verifies (manifest_json (manifest_payload m)),
  )
