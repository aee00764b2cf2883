-- ===== src/Norms/Base.antt =====
-- links/villages.py and links/norms.py: the policy of a new village, as a dict.

use policy_mesh.Json.{
  Value, Entries, bool, int, str, list, dict, entry, no_entries, element, no_elements,
}
use policy_mesh.Prelude.Int.{pos}
use policy_mesh.Prelude.{false, true, Bool}

abbrev pub no_texts : Value
no_texts = list no_elements

abbrev pub capabilities_dump : Bool → Bool → Bool → Value
capabilities_dump pull push manage = dict (
    entry "can_pull" (bool pull)
      (entry "can_push" (bool push) (entry "can_manage" (bool manage) no_entries)))

-- `VillagePolicy().model_dump()`
unfoldable pub base_policy : Entries
base_policy = entry "visibility" (str "village") (
    entry "allowed_predicates" (list (element (str "links.weighted_to") no_elements)) (
      entry "quarantine_external_bundles" (bool false) (
        entry "quarantine_review_min_approvals" (int (pos 1)) (
          entry "max_window_days" (int (pos 30)) (
            entry "min_signature_alg" (str "Ed25519") (
              entry "allow_unverified" (bool false) (
                entry "retention_days" (int (pos 90)) (
                  entry "rate_limit_per_min" (int (pos 60)) (
                    entry "rate_limit_strategy" (str "fixed_window") (
                      entry "submission_quota_per_day" (int (pos 0)) (
                        entry "public_policy_endpoint" (bool false) (
                          entry "policy_update_expires_minutes" (int (pos 0)) (
                            entry "issuer_allowlist" no_texts (
                              entry "issuer_blocklist" no_texts (
                                entry "issuer_id_allowlist" no_texts (
                                  entry "issuer_id_blocklist" no_texts (
                                    entry "require_policy_signature" (bool false) (
                                      entry "policy_signer_allowlist" no_texts (
                                        entry "policy_signature_threshold_m" (int (pos 1)) (
                                          entry "policy_quorum" (dict no_entries) (
                                            entry "policy_signer_weights" (dict no_entries) (
                                              entry "policy_signer_roles" (dict no_entries) (
                                                entry "trusted_manifest_signer_allowlist" no_texts (
                                                  entry "require_manifest_signature" (bool false) (
                                                    entry "require_trusted_manifest_signer"
                                                      (bool false)
                                                      (entry "require_quorum_metadata" (bool false)
                                                        (entry "require_issuer_allowlist"
                                                          (bool false)
                                                          (entry "capabilities"
                                                            (dict (
                                                            entry "observer"
                                                            (capabilities_dump true false false)
                                                            (entry "member"
                                                            (capabilities_dump true true false)
                                                            (entry "admin"
                                                            (capabilities_dump true true true)
                                                            no_entries))))
                                                            no_entries))))))))))))))))))))))))))))
