-- ===== src/Admission/Receipt/Laws.antt =====
-- Receipts that are built and signed verify; and what the identifier of a receipt binds.
use policy_mesh.Admission.Receipt.{
  verify_pair, build_policy_decision_receipt, sign_receipt, verify_receipt,
  unsigned_receipt_payload, Request, UnsignedReceipt, PolicyDecisionReceipt,
}
use policy_mesh.Update.{VillagePolicyUpdate, Crypto}
use policy_mesh.Prelude.{
  ap, ◌∙◌, eq_iff, sym, inr, ◌&&◌, ◌==◌, Bool-cases, inl, ℕ_discrete, refl, ◌≢◌, eq_refl, truthy,
  ◌⊎◌, some, true, ◌≡◌, String, ℕ, List,
}
use policy_mesh.Update.Signing.{IsSound, SigningKey}

pub codes_discrete : Discrete (List ℕ)
codes_discrete = hlevel ℕ_discrete

-- The receipts agree in all but the identifier and the signature.
pub record SaysSame (r s : PolicyDecisionReceipt) : Type 0 where
  pub same_ts : r.ts ≡ s.ts
  pub same_village_id : r.village_id ≡ s.village_id
  pub same_action : r.action ≡ s.action
  pub same_decision : r.decision ≡ s.decision
  pub same_subject_type : r.subject_type ≡ s.subject_type
  pub same_subject_id : r.subject_id ≡ s.subject_id
  pub same_actor : r.actor ≡ s.actor
  pub same_candidate_policy_hash : r.candidate_policy_hash ≡ s.candidate_policy_hash
  pub same_local_policy_hash : r.local_policy_hash ≡ s.local_policy_hash
  pub same_policy_version_id : r.policy_version_id ≡ s.policy_version_id
  pub same_lifecycle_state : r.lifecycle_state ≡ s.lifecycle_state
  pub same_activation_time : r.activation_time ≡ s.activation_time
  pub same_expires_at : r.expires_at ≡ s.expires_at
  pub same_reason_codes : r.reason_codes ≡ s.reason_codes
  pub same_notes : r.notes ≡ s.notes
  pub same_evidence : r.evidence ≡ s.evidence

payload-SaysSame :
    (r s : PolicyDecisionReceipt)
    → unsigned_receipt_payload r ≡ unsigned_receipt_payload s
    → SaysSame r s
unfolding unsigned_receipt_payload
payload-SaysSame r s e = record {
  same_ts = ap (λ p. p.ts) e;
  same_village_id = ap (λ p. p.village_id) e;
  same_action = ap (λ p. p.action) e;
  same_decision = ap (λ p. p.decision) e;
  same_subject_type = ap (λ p. p.subject_type) e;
  same_subject_id = ap (λ p. p.subject_id) e;
  same_actor = ap (λ p. p.actor) e;
  same_candidate_policy_hash = ap (λ p. p.candidate_policy_hash) e;
  same_local_policy_hash = ap (λ p. p.local_policy_hash) e;
  same_policy_version_id = ap (λ p. p.policy_version_id) e;
  same_lifecycle_state = ap (λ p. p.lifecycle_state) e;
  same_activation_time = ap (λ p. p.activation_time) e;
  same_expires_at = ap (λ p. p.expires_at) e;
  same_reason_codes = ap (λ p. p.reason_codes) e;
  same_notes = ap (λ p. p.notes) e;
  same_evidence = ap (λ p. p.evidence) e;
}

module _ (C : Crypto) (receipt_json : UnsignedReceipt → List ℕ) (b64encode : List ℕ → String) where
  verify-pair :
      (message : List ℕ) (k : SigningKey)
      → IsSound C b64encode k
      → verify_pair C receipt_json b64encode message
          (some (b64encode k.verify_key))
          (some (b64encode (k.sign message)))
        ≡ true
  unfolding verify_pair
  verify-pair message k v =
      elim (Bool-cases (truthy (b64encode k.verify_key) && truthy (b64encode (k.sign message)))) [
        | inl full ↦
            rw (full, v.decodes_key, v.decodes_signature message, v.accepts, v.verifies) refl
        | inr empty ↦ rw empty
      ]

  -- A receipt verifies as it is built, and when it is signed with a sound key.
  pub verify-build :
      (update : VillagePolicyUpdate) (q : Request) (k : SigningKey)
      → IsSound C b64encode k
      → let r = build_policy_decision_receipt C receipt_json b64encode update q in
        (verify_receipt C receipt_json b64encode r ≡ true)
        × (verify_receipt C receipt_json b64encode (sign_receipt C receipt_json b64encode r k)
            ≡ true)
  unfolding build_policy_decision_receipt sign_receipt verify_receipt
  verify-build update q k v = (rw eq_refl refl, rw eq_refl (verify-pair _ k v))

  id-hash :
      (r : PolicyDecisionReceipt)
      → verify_receipt C receipt_json b64encode r ≡ true
      → r.receipt_id ≡ C.sha256_hex (receipt_json (unsigned_receipt_payload r))
  unfolding verify_receipt
  id-hash r v =
      elim (Bool-cases (r.receipt_id == C.sha256_hex (receipt_json (unsigned_receipt_payload r)))) [
        | inl e ↦ (eq_iff _ _).0 e
        | inr e ↦ cc (rw e at v)
      ]

  -- Two receipts that verify and have one identifier say the same, but for the signature, or they show
  -- two texts with one hash. The serialisation has to tell what the two say apart.
  pub verify-binds :
      (r s : PolicyDecisionReceipt)
      → (receipt_json (unsigned_receipt_payload r) ≡ receipt_json (unsigned_receipt_payload s)
          → unsigned_receipt_payload r ≡ unsigned_receipt_payload s)
      → verify_receipt C receipt_json b64encode r ≡ true
      → verify_receipt C receipt_json b64encode s ≡ true
      → r.receipt_id ≡ s.receipt_id
      → SaysSame r s ⊎ ((a b : List ℕ) × (a ≢ b) × (C.sha256_hex a ≡ C.sha256_hex b))
  verify-binds r s faithful v w e =
      let a = receipt_json (unsigned_receipt_payload r) in
      let b = receipt_json (unsigned_receipt_payload s) in
      elim (codes_discrete a b) [
        | yes p ↦ inl (payload-SaysSame r s (faithful p))
        | no p ↦ inr (a, b, p, sym (id-hash r v) ∙ e ∙ id-hash s w)
      ]
