-- ===== src/Admission/Receipt.antt =====
-- links/decision_receipts.py: the receipt of a decision, its identifier and its signature. The times
-- of a receipt are in UTC, so that the two ways in which the source writes them agree.
pub mod Laws
use policy_mesh.Prelude.{
  true, ◌==◌, false, not, truthy, if◌then◌else◌, none, ◌&&◌, Bool, some, List, Option, String, ℕ,
}
use policy_mesh.Update.{Crypto, VillagePolicyUpdate}
use policy_mesh.Json.{Entries}
use policy_mesh.Update.Signing.{SigningKey}

pub record ReceiptEvidence : Type 0 where
  pub selected_source : Option String
  pub selected_head : Option String
  pub selection_reason : Option String
  pub manifest_ok : Option Bool
  pub manifest_message : Option String
  pub reconciliation_status : Option String
  pub reconciliation_report_path : Option String
  pub fetched_parent_hashes : List String
  pub unresolved_parent_hashes : List String
  pub quorum_summary : Entries

pub record PolicyDecisionReceipt : Type 0 where
  pub receipt_id : String
  pub ts : ℕ
  pub village_id : String
  pub action : String
  pub decision : String
  pub subject_type : String
  pub subject_id : String
  pub actor : Option String
  pub candidate_policy_hash : String
  pub local_policy_hash : Option String
  pub policy_version_id : Option String
  pub lifecycle_state : Option String
  pub activation_time : Option ℕ
  pub expires_at : Option ℕ
  pub reason_codes : List String
  pub notes : List String
  pub evidence : ReceiptEvidence
  pub signature_alg : Option String
  pub signer_public_key : Option String
  pub signature : Option String

-- The dict that the identifier is the hash of. The constant `format` is left out.
pub record UnsignedReceipt : Type 0 where
  pub ts : ℕ
  pub village_id : String
  pub action : String
  pub decision : String
  pub subject_type : String
  pub subject_id : String
  pub actor : Option String
  pub candidate_policy_hash : String
  pub local_policy_hash : Option String
  pub policy_version_id : Option String
  pub lifecycle_state : Option String
  pub activation_time : Option ℕ
  pub expires_at : Option ℕ
  pub reason_codes : List String
  pub notes : List String
  pub evidence : ReceiptEvidence

unfoldable pub unsigned_receipt_payload : PolicyDecisionReceipt → UnsignedReceipt
unsigned_receipt_payload r = record {
  ts = r.ts;
  village_id = r.village_id;
  action = r.action;
  decision = r.decision;
  subject_type = r.subject_type;
  subject_id = r.subject_id;
  actor = r.actor;
  candidate_policy_hash = r.candidate_policy_hash;
  local_policy_hash = r.local_policy_hash;
  policy_version_id = r.policy_version_id;
  lifecycle_state = r.lifecycle_state;
  activation_time = r.activation_time;
  expires_at = r.expires_at;
  reason_codes = r.reason_codes;
  notes = r.notes;
  evidence = r.evidence;
}

-- The keyword arguments of `build_policy_decision_receipt`, with their defaults put in.
pub record Request : Type 0 where
  pub village_id : String
  pub decision : String
  pub reason_codes : List String
  pub notes : List String
  pub actor : Option String
  pub action : String
  pub local_policy_hash : Option String
  pub evidence : ReceiptEvidence
  pub now : ℕ

seed : VillagePolicyUpdate → Request → UnsignedReceipt
seed update q = record {
  ts = q.now;
  village_id = q.village_id;
  action = q.action;
  decision = q.decision;
  subject_type = "policy_update";
  subject_id = update.policy_hash;
  actor = q.actor;
  candidate_policy_hash = update.policy_hash;
  local_policy_hash = q.local_policy_hash;
  policy_version_id = update.policy_version_id;
  lifecycle_state = some update.lifecycle_state;
  activation_time = update.activation_time;
  expires_at = update.expires_at;
  reason_codes = q.reason_codes;
  notes = q.notes;
  evidence = q.evidence;
}

-- `canonical_json` of a receipt's dict, and `base64.b64encode`.
module _ (C : Crypto) (receipt_json : UnsignedReceipt → List ℕ) (b64encode : List ℕ → String) where
  unfoldable pub compute_receipt_id : UnsignedReceipt → String
  compute_receipt_id payload = C.sha256_hex (receipt_json payload)

  unfoldable pub build_policy_decision_receipt :
      VillagePolicyUpdate → Request → PolicyDecisionReceipt
  unfolding seed compute_receipt_id
  build_policy_decision_receipt update q = record {
    receipt_id = compute_receipt_id (seed update q);
    ts = q.now;
    village_id = q.village_id;
    action = q.action;
    decision = q.decision;
    subject_type = "policy_update";
    subject_id = update.policy_hash;
    actor = q.actor;
    candidate_policy_hash = update.policy_hash;
    local_policy_hash = q.local_policy_hash;
    policy_version_id = update.policy_version_id;
    lifecycle_state = some update.lifecycle_state;
    activation_time = update.activation_time;
    expires_at = update.expires_at;
    reason_codes = q.reason_codes;
    notes = q.notes;
    evidence = q.evidence;
    signature_alg = none;
    signer_public_key = none;
    signature = none;
  }

  unfoldable pub sign_receipt : PolicyDecisionReceipt → SigningKey → PolicyDecisionReceipt
  unfolding unsigned_receipt_payload
  sign_receipt r signing_key = record r {
    signature_alg = some "Ed25519";
    signer_public_key = some (b64encode signing_key.verify_key);
    signature = some (b64encode (signing_key.sign (receipt_json (unsigned_receipt_payload r))));
  }

  -- the `try` block, whose exceptions all give `False`
  check_signature : List ℕ → Option (List ℕ) → Option (List ℕ) → Bool
  check_signature message (some key) (some sig) = C.accepts_key key && C.verify key message sig
  check_signature message _ _ = false

  verify_pair : List ℕ → Option String → Option String → Bool
  unfolding check_signature
  verify_pair message (some key) (some sig) =
      if truthy key && truthy sig
      then check_signature message (C.b64decode key) (C.b64decode sig)
      else true
  verify_pair message _ _ = true

  unfoldable pub verify_receipt : PolicyDecisionReceipt → Bool
  unfolding unsigned_receipt_payload compute_receipt_id verify_pair
  verify_receipt r =
      let payload = unsigned_receipt_payload r in
      if not (r.receipt_id == compute_receipt_id payload)
      then false
      else verify_pair (receipt_json payload) r.signer_public_key r.signature
