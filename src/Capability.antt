-- ===== src/Capability.antt =====
-- links/capability_manifest.py: what a node says that it can do. A manifest is a dict of JSON; the time
-- is a text, and the hash of a manifest's body is a parameter.
pub mod Laws
use policy_mesh.Json.{
  Value, Elements, Entries, null, bool, str, list, dict, entry, no_entries, element, no_elements,
  get, flag,
}
use policy_mesh.Json.Dict.{set_key, without}
use policy_mesh.Json.Compare.{eq_value}
use policy_mesh.Json.Read.{get_texts}
use policy_mesh.Update.{Result, ok, raise, value_error}
use Prim.Native.String.{◌++◌ as append_text}
use policy_mesh.Prelude.{
  ◌++◌, false, true, ◌&&◌, [], none, not, truthy, contains, if◌then◌else◌, minus, some, ◌∷◌, Bool,
  List, Option, String, add, both, sort_texts,
}

unfoldable pub stable_features : List String
stable_features =
    "claim_bundles" ∷ "village_policy" ∷ "quorum_m_of_n" ∷ "policy_feed_pull" ∷ "drift_detection"
    ∷ "transparency_checkpoints" ∷ "audit_log" ∷ "quarantine_workflow" ∷ "storage_filesystem"
    ∷ "storage_sqlite" ∷ "reconciliation_lineage_aware" ∷ "policy_rollback"
    ∷ "policy_decision_receipts" ∷ "policy_lifecycle" ∷ "policy_diff" ∷ "trust_anchor_registry"
    ∷ "replay_protection" ∷ "issuer_allowlist" ∷ []

unfoldable pub storage_modes : List String
storage_modes = "filesystem" ∷ "sqlite" ∷ []

unfoldable pub reconciliation_modes : List String
reconciliation_modes = "latest_wins" ∷ "lineage_aware" ∷ []

-- The features that a node with these modes has.
unfoldable pub features_of : String → String → List String
features_of storage_mode reconciliation_mode =
    "claim_bundles"
    ∷ "village_policy"
    ∷ "quorum_m_of_n"
    ∷ "policy_feed_pull"
    ∷ "drift_detection"
    ∷ "transparency_checkpoints"
    ∷ "audit_log"
    ∷ "quarantine_workflow"
    ∷ "policy_rollback"
    ∷ "policy_decision_receipts"
    ∷ "policy_lifecycle"
    ∷ "policy_diff"
    ∷ "trust_anchor_registry"
    ∷ "replay_protection"
    ∷ "issuer_allowlist"
    ∷ append_text "storage_" storage_mode
    ∷ append_text "reconciliation_" reconciliation_mode
    ∷ []

unfoldable pub stable_of : String → String → List String
unfolding features_of both sort_texts stable_features
stable_of storage_mode reconciliation_mode =
    sort_texts (both stable_features (features_of storage_mode reconciliation_mode))

-- The arguments of `build_manifest`, with the clock's value.
pub record NodeRequest : Type 0 where
  pub node_id : String
  pub storage_mode : String
  pub reconciliation_mode : String
  pub transparency_features : List String
  pub experimental_features : List String
  pub federation_pilot : Bool
  pub operator_notes : Option String
  pub extra : Entries
  pub generated_at : String

unfoldable pub elements : List String → Elements
elements [] = no_elements
elements (s ∷ ss) = element (str s) (elements ss)

abbrev pub with_notes : Option String → Entries → Entries
with_notes none manifest = manifest
with_notes (some notes) manifest =
    if truthy notes then set_key "operator_notes" (str notes) manifest else manifest

abbrev pub with_extra : Entries → Entries → Entries
with_extra no_entries manifest = manifest
with_extra (entry k v d) manifest = set_key "extensions" (dict (entry k v d)) manifest

unfoldable pub common_body : NodeRequest → Entries
unfolding elements stable_of sort_texts
common_body r = entry "schema_version" (str "1.0") (
    entry "node_id" (str r.node_id) (
      entry "generated_at" (str r.generated_at) (
        entry "storage_mode" (str r.storage_mode) (
          entry "reconciliation_mode" (str r.reconciliation_mode) (
            entry "transparency_features" (list (elements (sort_texts r.transparency_features))) (
              entry "stable_features"
                (list (elements (stable_of r.storage_mode r.reconciliation_mode)))
                (entry "experimental_features"
                  (list (elements (sort_texts r.experimental_features)))
                  (entry "federation_pilot" (bool r.federation_pilot) no_entries))))))))

unfoldable pub body_of : NodeRequest → Entries
unfolding common_body set_key
body_of r = with_extra r.extra (with_notes r.operator_notes (common_body r))

pub data HashMessage : Type 0 where
  hash_missing : HashMessage
  hash_mismatch : Value → String → HashMessage
  hash_ok : HashMessage

abbrev pub value_or_null : Option Value → Value
value_or_null none = null
value_or_null (some v) = v

module _ (hash_manifest_body : Entries → String) where
  unfoldable pub build_manifest : NodeRequest → Result Entries
  unfolding body_of contains set_key storage_modes reconciliation_modes
  build_manifest r =
      if not (contains r.storage_mode storage_modes)
      then raise value_error
      else if not (contains r.reconciliation_mode reconciliation_modes)
      then raise value_error
      else ok (set_key "manifest_hash" (str (hash_manifest_body (body_of r))) (body_of r))

  unfoldable pub verify_manifest_hash : Entries → Bool × HashMessage
  unfolding flag get without eq_value
  verify_manifest_hash manifest =
      let stored = value_or_null (get "manifest_hash" manifest) in
      let expected = hash_manifest_body (without "manifest_hash" manifest) in
      if not (flag "manifest_hash" manifest)
      then (false, hash_missing)
      else if not (eq_value stored (str expected))
      then (false, hash_mismatch stored expected)
      else (true, hash_ok)

pub data CompatibilityNote : Type 0 where
  storage_differs : CompatibilityNote
  reconciliation_differs : CompatibilityNote
  pilot_differs : CompatibilityNote

pub record CompatibilityReport : Type 0 where
  pub compatible : Bool
  pub shared_stable_features : List String
  pub local_only_features : List String
  pub peer_only_features : List String
  pub shared_transparency_features : List String
  pub storage_match : Bool
  pub reconciliation_match : Bool
  pub notes : List CompatibilityNote

abbrev pub note_if : Bool → CompatibilityNote → List CompatibilityNote
note_if true note = note ∷ []
note_if false note = []

-- `set(xs)`
unfoldable pub set_of : List String → List String
unfolding add
set_of [] = []
set_of (x ∷ xs) = add x (set_of xs)

unfoldable pub features : String → Entries → List String
unfolding set_of get_texts
features key manifest = set_of (get_texts key manifest)

-- `local.get(key) == peer.get(key)`
unfoldable pub same_at : String → Entries → Entries → Bool
unfolding get eq_value
same_at key local peer = eq_value (value_or_null (get key local)) (value_or_null (get key peer))

unfoldable pub check_compatibility : Entries → Entries → Bool → CompatibilityReport
unfolding features same_at sort_texts both minus flag
check_compatibility local peer require_storage_match =
    let local_stable = features "stable_features" local in
    let peer_stable = features "stable_features" peer in
    let storage_match = same_at "storage_mode" local peer in
    let reconciliation_match = same_at "reconciliation_mode" local peer in
    record {
      compatible = not (require_storage_match && not storage_match);
      shared_stable_features = sort_texts (both local_stable peer_stable);
      local_only_features = sort_texts (minus local_stable peer_stable);
      peer_only_features = sort_texts (minus peer_stable local_stable);
      shared_transparency_features =
          sort_texts
            (both (features "transparency_features" local) (features "transparency_features" peer));
      storage_match = storage_match;
      reconciliation_match = reconciliation_match;
      notes =
          note_if (require_storage_match && not storage_match) storage_differs
          ++ note_if (not reconciliation_match) reconciliation_differs
          ++ note_if (flag "federation_pilot" peer && not (flag "federation_pilot" local))
              pilot_differs;
    }
