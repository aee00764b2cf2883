-- ===== src/Update/Signing/Laws.antt =====
-- A built update that keys sign one after another passes the M-of-N check.
use policy_mesh.Update.{
  compute_policy_hash, payload_for_signing, bind-returns, ◌>>=◌, Result, ok, VillagePolicyUpdate,
  Payload, SignatureEntry, key_hash_from_public_key_b64, verify_one, Crypto,
}
use policy_mesh.Prelude.{
  eq_refl, none, ◌≤◌, ◌<◌, length-append, ap, contains-add, suc, add, refl, length, ◌∙◌, All,
  Distinct, map, arith, if◌then◌else◌, [], false, contains, true, ◌++◌, some, ◌∷◌, ◌≡◌, String, ℕ,
  List,
}
use policy_mesh.Update.Signing.{
  Draft, build_update, add_signature, IsSound, SigningKey, new_entry, keep_first,
}
use policy_mesh.Update.Quorum.{
  quorum_ok, valid_signers, verify_update_quorum, count_signer, collect_signers,
}
use policy_mesh.Prelude.Int.{pos}

length-add_fresh :
    (k : String) (xs : List String) → contains k xs ≡ false → length (add k xs) ≡ suc (length xs)
unfolding add
length-add_fresh k xs h = rw h (omega (arith, length-append xs (k ∷ [])))

module _ (C : Crypto) where
  hash_of_decoded :
      (public_key : String) (bytes : List ℕ)
      → C.b64decode public_key ≡ some bytes
      → key_hash_from_public_key_b64 C public_key ≡ ok (C.sha256_hex bytes)
  unfolding key_hash_from_public_key_b64
  hash_of_decoded public_key bytes e = ground (arith, e)

  verify_of_decoded :
      (payload : Payload) (public_key signature : String) (bytes sig : List ℕ)
      → C.b64decode public_key ≡ some bytes
      → C.b64decode signature ≡ some sig
      → C.accepts_key bytes ≡ true
      → C.verify bytes (C.payload_json payload) sig ≡ true
      → verify_one C payload public_key signature "ed25519" ≡ ok true
  unfolding verify_one
  verify_of_decoded payload public_key signature bytes sig a b c d = ground (arith, a, b, c, d)

  keep-snoc :
      (xs : List SignatureEntry) (e : SignatureEntry) (seen s : List String)
      (out : List SignatureEntry) (h : String)
      → keep_first C xs seen ≡ ok (s, out)
      → key_hash_from_public_key_b64 C e.public_key ≡ ok h
      → contains h s ≡ false
      → keep_first C (xs ++ (e ∷ [])) seen ≡ ok (h ∷ s, out ++ (e ∷ []))
  unfolding keep_first
  keep-snoc [] e seen s out h kept hashed fresh = ground (arith, kept, hashed, fresh)
  keep-snoc (x ∷ xs) e seen s out h kept hashed fresh =
      let (k, ek, rest) = bind-returns (key_hash_from_public_key_b64 C x.public_key) _ kept in
      let (found, ef, last) =
        bind-returns (keep_first C xs (if contains k seen then seen else k ∷ seen)) _ rest in
      ground (
        arith,
        ek,
        ef,
        last,
        keep-snoc xs e (if contains k seen then seen else k ∷ seen) found.0 found.1 h ef hashed,
      )

module _ (C : Crypto) (b64encode : List ℕ → String) where
  unfoldable pub key_hash : SigningKey → String
  key_hash k = C.sha256_hex k.verify_key

  -- The keys sign in turn, the last one of the list first.
  unfoldable pub sign_all : VillagePolicyUpdate → List SigningKey → Result VillagePolicyUpdate
  sign_all u [] = ok u
  sign_all u (k ∷ ks) = do signed ← sign_all u ks; add_signature C b64encode signed k

  unfoldable pub entries_of : Payload → List SigningKey → List SignatureEntry
  entries_of payload [] = []
  entries_of payload (k ∷ ks) = entries_of payload ks ++ (new_entry C b64encode payload k ∷ [])

  hash-entry :
      (payload : Payload) (k : SigningKey)
      → IsSound C b64encode k
      → key_hash_from_public_key_b64 C (new_entry C b64encode payload k).public_key
        ≡ ok (key_hash k)
  unfolding new_entry key_hash
  hash-entry payload k s = hash_of_decoded C (b64encode k.verify_key) k.verify_key s.decodes_key

  verify-entry :
      (payload : Payload) (k : SigningKey)
      → IsSound C b64encode k
      → let e = new_entry C b64encode payload k in
        verify_one C payload e.public_key e.signature e.alg ≡ ok true
  unfolding new_entry
  verify-entry payload k s =
      verify_of_decoded C payload (b64encode k.verify_key)
        (b64encode (k.sign (C.payload_json payload))) k.verify_key (k.sign (C.payload_json payload))
        s.decodes_key (s.decodes_signature (C.payload_json payload)) s.accepts
        (s.verifies (C.payload_json payload))

  abbrev pub hashes : List SigningKey → List String
  hashes = map key_hash

  abbrev pub AllSound : List SigningKey → Type 0
  AllSound = All (IsSound C b64encode)

  keep-entries :
      (payload : Payload) (ks : List SigningKey)
      → AllSound ks
      → Distinct (hashes ks)
      → (s : List String) × (keep_first C (entries_of payload ks) []
          ≡ ok (s, entries_of payload ks))
        × ((h : String) → contains h s ≡ contains h (hashes ks))
  unfolding entries_of keep_first contains
  keep-entries payload [] a d = ([], refl, λ h. refl)
  keep-entries payload (k ∷ ks) a d =
      let (s, kept, same) = keep-entries payload ks a.1 d.1 in
      (
        key_hash k ∷ s,
        keep-snoc C (entries_of payload ks) (new_entry C b64encode payload k) [] s
            (entries_of payload ks) (key_hash k) kept (hash-entry payload k a.0)
            (same (key_hash k) ∙ d.0),
        λ h. rw (same h) refl,
      )

  add-entries :
      (u : VillagePolicyUpdate) (es : List SignatureEntry) (k : SigningKey) (s : List String)
      → keep_first C es [] ≡ ok (s, es)
      → key_hash_from_public_key_b64 C (new_entry C b64encode (payload_for_signing u) k).public_key
        ≡ ok (key_hash k)
      → contains (key_hash k) s ≡ false
      → add_signature C b64encode (record u { signatures = es }) k
        ≡ ok
            (record u { signatures = es ++ (new_entry C b64encode (payload_for_signing u) k ∷ []) })
  unfolding add_signature payload_for_signing
  add-entries u es k s kept hashed fresh = ground (arith, kept, hashed, fresh)

  sign_all-entries :
      (u : VillagePolicyUpdate) (ks : List SigningKey)
      → u.signatures ≡ []
      → AllSound ks
      → Distinct (hashes ks)
      → sign_all u ks ≡ ok (record u { signatures = entries_of (payload_for_signing u) ks })
  unfolding sign_all entries_of
  sign_all-entries u [] none_yet a d = ap (λ es. ok (record u { signatures = es })) none_yet
  sign_all-entries u (k ∷ ks) none_yet a d =
      let payload = payload_for_signing u in
      let (s, kept, same) = keep-entries payload ks a.1 d.1 in
      ground (
        arith,
        sign_all-entries u ks none_yet a.1 d.1,
        add-entries u (entries_of payload ks) k s kept (hash-entry payload k a.0)
            (same (key_hash k) ∙ d.0),
      )

  collect-snoc :
      (payload : Payload) (xs : List SignatureEntry) (e : SignatureEntry) (valid v : List String)
      (h : String)
      → collect_signers C payload [] xs valid ≡ ok v
      → key_hash_from_public_key_b64 C e.public_key ≡ ok h
      → verify_one C payload e.public_key e.signature e.alg ≡ ok true
      → collect_signers C payload [] (xs ++ (e ∷ [])) valid ≡ ok (add h v)
  unfolding collect_signers count_signer
  collect-snoc payload [] e valid v h c hashed good = ground (arith, c, hashed, good)
  collect-snoc payload (x ∷ xs) e valid v h c hashed good =
      let (w, counted, rest) = bind-returns (count_signer C payload [] x valid) _ c in
      ground (arith, counted, collect-snoc payload xs e w v h rest hashed good)

  collect-entries :
      (payload : Payload) (ks : List SigningKey)
      → AllSound ks
      → Distinct (hashes ks)
      → (v : List String) × (collect_signers C payload [] (entries_of payload ks) [] ≡ ok v)
        × ((h : String) → contains h v ≡ contains h (hashes ks))
        × (length v ≡ length ks)
  unfolding entries_of collect_signers contains
  collect-entries payload [] a d = ([], refl, λ h. refl, refl)
  collect-entries payload (k ∷ ks) a d =
      let (v, got, same, long) = collect-entries payload ks a.1 d.1 in
      (
        add (key_hash k) v,
        collect-snoc payload (entries_of payload ks) (new_entry C b64encode payload k) [] v
            (key_hash k) got (hash-entry payload k a.0) (verify-entry payload k a.0),
        λ h. contains-add (key_hash k) h v ∙ rw (same h) refl,
        length-add_fresh (key_hash k) v (same (key_hash k) ∙ d.0) ∙ ap suc long,
      )

  -- Keys with distinct hashes that sign a built update in turn give an update with which the M-of-N
  -- check is content, for every threshold from one to the number of the keys.
  pub quorum-sign_all :
      (q : Draft) (ks : List SigningKey) (m : ℕ)
      → AllSound ks
      → Distinct (hashes ks)
      → 0 < m
      → m ≤ length ks
      → (u : VillagePolicyUpdate) × (sign_all (build_update C q) ks ≡ ok u)
        × (verify_update_quorum C u (pos m) none ≡ ok (true, quorum_ok))
  unfolding build_update verify_update_quorum valid_signers payload_for_signing collect_signers
  quorum-sign_all q ks m a d some_wanted enough =
      let u = build_update C q in
      let payload = payload_for_signing u in
      let (v, got, same, long) = collect-entries payload ks a d in
      (
        record u { signatures = entries_of payload ks },
        sign_all-entries u ks refl a d,
        ground (arith, got, long, some_wanted, enough, eq_refl (compute_policy_hash C q.policy)),
      )
