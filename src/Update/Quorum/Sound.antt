-- ===== src/Update/Quorum/Sound.antt =====
-- The signers that the M-of-N check of links/policy_updates.py counts, against what a valid signer
-- is.
use policy_mesh.Update.Quorum.{
  verdict, allow_set, pos, QuorumMessage, reaches, verify_update_quorum, valid_signers,
  collect_signers, blocked, count_signer,
}
use policy_mesh.Update.{
  compute_policy_hash, legacy, payload_for_signing, VillagePolicyUpdate, bind-returns, verify_one,
  ok, key_hash_from_public_key_b64, SignatureEntry, Payload, Crypto,
}
use policy_mesh.Prelude.{
  All-map, zero, length-le_of_Within, suc, le→leb, leb→le, All-of_contains, ◌<◌, length, ◌≤◌, All,
  Option, ℕ, ◌↔◌, add, add-Distinct, if◌then◌else◌, Bool, Distinct, [], eq_iff, ◌==◌, inr,
  contains-add, inl, Bool-cases, arith, false, true, contains, ◌⊎◌, ◌∷◌, ◌≡◌, List, String,
}
use policy_mesh.Prelude.Int.{ltb_ℤ}

module _ (C : Crypto) (payload : Payload) where
  -- The entry is a good signature by the key with this hash.
  abbrev pub Signs : String → SignatureEntry → Type 0
  Signs kh e =
      (key_hash_from_public_key_b64 C e.public_key ≡ ok kh)
      × (verify_one C payload e.public_key e.signature e.alg ≡ ok true)

  abbrev pub SomeSigns : String → List SignatureEntry → Type 0
  SomeSigns kh [] = ⊥
  SomeSigns kh (e ∷ es) = Signs kh e ⊎ SomeSigns kh es

module _ (C : Crypto) (payload : Payload) (allow : List String) (kh : String) where
  -- What one round of the loop has done, where it has not raised.
  Counted : SignatureEntry → List String → List String → String → Type 0
  Counted e valid valid' k =
      (key_hash_from_public_key_b64 C e.public_key ≡ ok k)
      × (((blocked allow k ≡ true) × (valid' ≡ valid))
          ⊎ ((blocked allow k ≡ false)
              × ((good : Bool) × (verify_one C payload e.public_key e.signature e.alg ≡ ok good)
                  × (valid' ≡ (if good then add k valid else valid)))))

  count-Counted :
      (e : SignatureEntry) (valid valid' : List String)
      → count_signer C payload allow e valid ≡ ok valid'
      → (k : String) × Counted e valid valid' k
  unfolding count_signer Counted
  count-Counted e valid valid' h =
      let (k, ek, h₁) = bind-returns (key_hash_from_public_key_b64 C e.public_key) _ h in
      elim (Bool-cases (blocked allow k)) [
        | inl b ↦ (k, (ek, inl (b, ground arith)))
        | inr b ↦
            let (good, eg, h₂) =
              bind-returns (verify_one C payload e.public_key e.signature e.alg) _ (rw b at h₁) in
            (k, (ek, inr (b, (good, eg, ground arith))))
      ]

  count_sound :
      (e : SignatureEntry) (valid valid' : List String) (k : String)
      → Counted e valid valid' k
      → contains kh valid' ≡ true
      → (contains kh valid ≡ true) ⊎ ((blocked allow kh ≡ false) × Signs C payload kh e)
  unfolding Counted
  count_sound e valid valid' k (ek, inl (b, v)) c = inl (cc)
  count_sound e valid valid' k (ek, inr (b, (false, eg, v))) c = inl (cc)
  count_sound e valid valid' k (ek, inr (b, (true, eg, v))) c = elim (Bool-cases (k == kh)) [
    | inl p ↦ let q = (eq_iff k kh).0 p in inr (rw (← q) b, (rw (← q) ek, eg))
    | inr p ↦ inl (ground (arith, contains-add k kh valid))
  ]

  count_complete :
      (e : SignatureEntry) (valid valid' : List String) (k : String)
      → Counted e valid valid' k
      → (contains kh valid ≡ true) ⊎ ((blocked allow kh ≡ false) × Signs C payload kh e)
      → contains kh valid' ≡ true
  unfolding Counted
  count_complete e valid valid' k c s = ground (arith, contains-add k kh valid, eq_iff k kh)

  count-Distinct :
      (e : SignatureEntry) (valid valid' : List String) (k : String)
      → Counted e valid valid' k
      → Distinct valid
      → Distinct valid'
  unfolding Counted
  count-Distinct e valid valid' k (ek, inl (b, v)) d = rw v d
  count-Distinct e valid valid' k (ek, inr (b, (false, eg, v))) d = rw v d
  count-Distinct e valid valid' k (ek, inr (b, (true, eg, v))) d = rw v (add-Distinct k valid d)

module _ (C : Crypto) (payload : Payload) (allow : List String) where
  abbrev MaySign : String → List SignatureEntry → Type 0
  MaySign kh es = (blocked allow kh ≡ false) × SomeSigns C payload kh es

  collect_sound :
      (kh : String) (es : List SignatureEntry) (valid valid' : List String)
      → collect_signers C payload allow es valid ≡ ok valid'
      → contains kh valid' ≡ true
      → (contains kh valid ≡ true) ⊎ MaySign kh es
  unfolding collect_signers
  collect_sound kh [] valid valid' h c = inl (cc)
  collect_sound kh (e ∷ es) valid valid' h c =
      let (v, hv, h₁) = bind-returns (count_signer C payload allow e valid) _ h in
      let (k, counted) = count-Counted C payload allow kh e valid v hv in
      elim (collect_sound kh es v valid' h₁ c) [
        | inl now ↦ elim (count_sound C payload allow kh e valid v k counted now) [
          | inl old ↦ inl old
          | inr new ↦ inr (new.0, inl new.1)
        ]
        | inr later ↦ inr (later.0, inr later.1)
      ]

  collect_complete :
      (kh : String) (es : List SignatureEntry) (valid valid' : List String)
      → collect_signers C payload allow es valid ≡ ok valid'
      → (contains kh valid ≡ true) ⊎ MaySign kh es
      → contains kh valid' ≡ true
  unfolding collect_signers
  collect_complete kh [] valid valid' h (inl c) = cc
  collect_complete kh [] valid valid' h (inr c) = absurd c.1
  collect_complete kh (e ∷ es) valid valid' h c =
      let (v, hv, h₁) = bind-returns (count_signer C payload allow e valid) _ h in
      let (k, counted) = count-Counted C payload allow kh e valid v hv in
      let now : (contains kh valid ≡ true) ⊎ ((blocked allow kh ≡ false) × Signs C payload kh e)
          → contains kh v ≡ true =
        count_complete C payload allow kh e valid v k counted in
      collect_complete kh es v valid' h₁ (elim c [
        | inl old ↦ inl (now (inl old))
        | inr (b, inl s) ↦ inl (now (inr (b, s)))
        | inr (b, inr s) ↦ inr (b, s)
      ])

  collect-Distinct :
      (es : List SignatureEntry) (valid valid' : List String)
      → collect_signers C payload allow es valid ≡ ok valid'
      → Distinct valid
      → Distinct valid'
  unfolding collect_signers
  collect-Distinct [] valid valid' h d = ground arith
  collect-Distinct (e ∷ es) valid valid' h d =
      let (v, hv, h₁) = bind-returns (count_signer C payload allow e valid) _ h in
      let (k, counted) = count-Counted C payload allow "" e valid v hv in
      collect-Distinct es v valid' h₁ (count-Distinct C payload allow "" e valid v k counted d)

module _ (C : Crypto) (u : VillagePolicyUpdate) (allow : List String) where
  -- The key with this hash may sign and has signed the update, in the list or in the legacy pair.
  abbrev pub IsSigner : String → Type 0
  IsSigner kh =
      (blocked allow kh ≡ false)
      × (SomeSigns C (payload_for_signing u) kh u.signatures
          ⊎ SomeSigns C (payload_for_signing u) kh (legacy C u))

  -- The counted hashes are distinct, and are exactly those of the signers.
  pub valid_signers_lem :
      (valid : List String)
      → valid_signers C u allow ≡ ok valid
      → Distinct valid × ((kh : String) → (contains kh valid ≡ true) ↔ IsSigner kh)
  unfolding valid_signers contains
  valid_signers_lem valid h =
      let p = payload_for_signing u in
      let (v, hv, h₁) = bind-returns (collect_signers C p allow u.signatures []) _ h in
      (
        collect-Distinct C p allow (legacy C u) v valid h₁
            (collect-Distinct C p allow u.signatures [] v hv tt),
        λ kh. (
          λ c. elim (collect_sound C p allow kh (legacy C u) v valid h₁ c) [
            | inl now ↦ elim (collect_sound C p allow kh u.signatures [] v hv now) [
              | inl old ↦ cc
              | inr a ↦ (a.0, inl a.1)
            ]
            | inr a ↦ (a.0, inr a.1)
          ],
          λ s. collect_complete C p allow kh (legacy C u) v valid h₁ (elim s.1 [
            | inl a ↦ inl (collect_complete C p allow kh u.signatures [] v hv (inr (s.0, a)))
            | inr a ↦ inr (s.0, a)
          ]),
        ),
      )

-- There are `m` keys or more, each allowed, that have signed the update.
abbrev pub HasSigners : Crypto → VillagePolicyUpdate → List String → ℕ → Type 0
HasSigners C u allow m =
    (signers : List String) × Distinct signers
    × All (IsSigner C u allow) signers
    × (m ≤ length signers)

module _ (C : Crypto) (u : VillagePolicyUpdate) (allow : List String) (m : ℕ) where
  reaches_iff :
      (valid : List String)
      → valid_signers C u allow ≡ ok valid
      → (reaches (length valid) (pos m) ≡ true) ↔ HasSigners C u allow m
  reaches_iff valid h =
      let (d, iff) = valid_signers_lem C u allow valid h in
      (
        λ r. (valid, d, All-of_contains (IsSigner C u allow) valid (λ k. (iff k).0), leb→le _ _ r),
        λ (xs, dx, a, le).
            le→leb _ _
              (omega (arith, le, length-le_of_Within xs valid dx (All-map xs (λ k. (iff k).1) a))),
      )

positive : (m : ℕ) → ltb_ℤ (pos (suc m)) (pos 1) ≡ false
positive m = ground arith

-- Where the check of M-of-N returns, it accepts exactly if the threshold is positive, the policy
-- hash is that of the policy, and at least that many distinct allowed keys have signed the update.
pub quorum_iff :
    (C : Crypto) (u : VillagePolicyUpdate) (m : ℕ) (allowlist : Option (List String)) (b : Bool)
    (message : QuorumMessage)
    → verify_update_quorum C u (pos m) allowlist ≡ ok (b, message)
    → (b ≡ true) ↔ (
        (0 < m)
        × (u.policy_hash ≡ compute_policy_hash C u.policy)
        × HasSigners C u (allow_set allowlist) m)
unfolding verify_update_quorum
quorum_iff C u zero allowlist b message h = (λ e. cc, λ k. absurd (omega arith))
quorum_iff C u (suc m) allowlist b message h =
    elim (Bool-cases (u.policy_hash == compute_policy_hash C u.policy)) [
      | inr x ↦
          let h' = rw (positive m, x) at h in
          (λ e. cc, λ k. cc ((eq_iff u.policy_hash (compute_policy_hash C u.policy)).1 k.1))
      | inl x ↦
          let (valid, hv, h₁) =
            bind-returns (valid_signers C u (allow_set allowlist))
              (λ valid. ok (verdict (length valid) (pos (suc m)))) (rw (positive m, x) at h) in
          let iff = reaches_iff C u (allow_set allowlist) (suc m) valid hv in
          (
            λ e. (omega arith, (eq_iff _ _).0 x, iff.0 (ground arith)),
            λ k. ground (arith, iff.1 k.2),
          )
    ]
