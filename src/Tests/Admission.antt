-- ===== src/Tests/Admission.antt =====
-- Tests of links/decision_receipts.py.
-- The key "A", whose signatures are its own byte.
use policy_mesh.Update.Signing.{SigningKey, IsSound}
use policy_mesh.Admission.Receipt.{
  sign_receipt, verify_receipt, build_policy_decision_receipt, PolicyDecisionReceipt,
  ReceiptEvidence, Request, UnsignedReceipt, unsigned_receipt_payload,
}
use policy_mesh.Update.{VillagePolicyUpdate}
use policy_mesh.Prelude.{
  Option, some, codes, if◌then◌else◌, eq_ignoring_case, refl, ◌≢◌, String, [], true, ◌⊎◌, none, ℕ,
  ◌∷◌, ◌≡◌, List,
}
use policy_mesh.Admission.{
  Decision, defer, reject, sentence, ready_for_apply, apply, lifecycle_is, collect, any_code,
  evaluate_policy_update,
}
use policy_mesh.Admission.Receipt.Laws.{verify-build, verify-binds, SaysSame}
use policy_mesh.Tests.Samples.{signed, toy}
use policy_mesh.Json.{no_entries, flag}
use policy_mesh.Admission.Decide.{evaluate_lem, is_waiting, is_blocked}

abbrev key : SigningKey
key = record { verify_key = 1 ∷ []; sign = λ _. 1 ∷ [] }

abbrev encode : List ℕ → String
encode _ = "A"

abbrev as_bytes : UnsignedReceipt → List ℕ
as_bytes payload = payload.ts ∷ []

key-IsSound : IsSound toy encode key
key-IsSound = record {
  decodes_key = refl;
  decodes_signature = λ _. refl;
  accepts = refl;
  verifies = λ _. refl;
}

-- An update in a lifecycle state that the lifecycle does not have.
abbrev draft : VillagePolicyUpdate
draft = record signed { lifecycle_state = "draft" }

draft_applied :
    evaluate_policy_update no_entries draft none true "ok" 5
    ≡ (apply, ready_for_apply ∷ [], sentence ready_for_apply ∷ [])
unfolding evaluate_policy_update any_code collect lifecycle_is eq_ignoring_case flag
draft_applied = refl

-- The decision at the time 5 on an update in this state with these times of expiry and activation.
abbrev decided : String → Option ℕ → Option ℕ → Decision
decided state expires_at activation_time =
    (evaluate_policy_update no_entries
      (record signed {
        lifecycle_state = state;
        expires_at = expires_at;
        activation_time = activation_time;
      })
      none true "ok" 5).0

-- The times themselves are still within the bounds, and the state's letters may be large.
time_bounds :
    (decided "active" (some 5) (some 5) ≡ apply)
    × (decided "active" (some 4) none ≡ reject)
    × (decided "active" none (some 6) ≡ defer)
    × (decided "Proposal" none none ≡ defer)
    × (decided "" none none ≡ defer)
    × (decided "ROLLED_BACK" none none ≡ reject)
unfolding evaluate_policy_update any_code collect lifecycle_is eq_ignoring_case flag
time_bounds = (refl, refl, refl, refl, refl, refl)

evaluate_lem_example :
    let (decision, codes, _) = evaluate_policy_update no_entries draft none true "ok" 5 in
    (decision ≡ (
      if is_blocked no_entries draft none true 5
      then reject
      else if is_waiting draft 5
      then defer
      else apply))
    × (decision ≡ apply → codes ≡ ready_for_apply ∷ [])
evaluate_lem_example = evaluate_lem no_entries draft none true "ok" 5

abbrev no_evidence : ReceiptEvidence
no_evidence = record {
  selected_source = none;
  selected_head = none;
  selection_reason = none;
  manifest_ok = none;
  manifest_message = none;
  reconciliation_status = none;
  reconciliation_report_path = none;
  fetched_parent_hashes = [];
  unresolved_parent_hashes = [];
  quorum_summary = no_entries;
}

abbrev request : Request
request = record {
  village_id = "ops";
  decision = "apply";
  reason_codes = "ready_for_apply" ∷ [];
  notes = [];
  actor = none;
  action = "policy_pull";
  local_policy_hash = none;
  evidence = no_evidence;
  now = 5;
}

abbrev built : PolicyDecisionReceipt
built = build_policy_decision_receipt toy as_bytes encode signed request

-- The decision of the receipt is changed, and its identifier is kept.
abbrev forged : PolicyDecisionReceipt
forged = record built { decision = "reject" }

abbrev decision_bytes : UnsignedReceipt → List ℕ
decision_bytes r = codes r.decision

other_decision :
    decision_bytes (unsigned_receipt_payload built)
      ≡ decision_bytes (unsigned_receipt_payload forged)
    → unsigned_receipt_payload built ≡ unsigned_receipt_payload forged
unfolding unsigned_receipt_payload codes build_policy_decision_receipt
other_decision e = cc

-- The hash of the test gives every text one digest, so both receipts verify.
both_verify :
    (verify_receipt toy decision_bytes encode built ≡ true)
    × (verify_receipt toy decision_bytes encode forged ≡ true)
unfolding verify_receipt build_policy_decision_receipt codes
both_verify = (refl, refl)

verify-binds_example :
    SaysSame built forged ⊎ ((a b : List ℕ) × (a ≢ b) × (toy.sha256_hex a ≡ toy.sha256_hex b))
verify-binds_example =
    verify-binds toy decision_bytes encode built forged other_decision both_verify.0 both_verify.1
      refl

signed_receipt :
    verify_receipt toy as_bytes encode (sign_receipt toy as_bytes encode built key) ≡ true
signed_receipt = (verify-build toy as_bytes encode signed request key key-IsSound).1
