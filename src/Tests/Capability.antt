-- ===== src/Tests/Capability.antt =====
-- Tests of links/capability_manifest.py.
use policy_mesh.Capability.{
  elements, NodeRequest, build_manifest, verify_manifest_hash, hash_ok, stable_features,
  features_of, stable_of, storage_modes, reconciliation_modes, features,
}
use policy_mesh.Json.{entry, list, Entries, no_entries}
use policy_mesh.Prelude.{
  codes, codes_le, text_le, List, insert_text, refl, some, ◌&&◌, false, true, String, [], contains,
  ◌≡◌,
}
use policy_mesh.Update.{value_error, ok, raise}
use policy_mesh.Capability.Laws.{build_manifest_lem}

abbrev hash_of : Entries → String
hash_of _ = "h"

abbrev node : NodeRequest
node = record {
  node_id = "n";
  storage_mode = "sqlite";
  reconciliation_mode = "latest_wins";
  transparency_features = [];
  experimental_features = [];
  federation_pilot = false;
  operator_notes = some "pilot";
  extra = no_entries;
  generated_at = "t";
}

-- The mode latest_wins is no stable feature, and the manifest names no mode of reconciliation.
latest_wins_unlisted :
    contains "reconciliation_latest_wins" (stable_of "sqlite" "latest_wins") ≡ false
unfolding stable_of contains insert_text text_le codes_le codes
latest_wins_unlisted = refl

unknown_mode : build_manifest hash_of (record node { storage_mode = "memory" }) ≡ raise value_error
unfolding build_manifest
unknown_mode = refl

known_storage : contains "sqlite" storage_modes ≡ true
unfolding contains storage_modes
known_storage = refl

known_reconciliation : contains "latest_wins" reconciliation_modes ≡ true
unfolding contains reconciliation_modes
known_reconciliation = refl

build_manifest_lem_example :
    (m : Entries) × (build_manifest hash_of node ≡ ok m)
    × (verify_manifest_hash hash_of m ≡ (true, hash_ok))
    × ((f : String)
        → contains f (features "stable_features" m)
          ≡ (contains f stable_features && contains f (features_of "sqlite" "latest_wins")))
build_manifest_lem_example = build_manifest_lem hash_of node refl known_storage known_reconciliation

abbrev manifest_with : List String → Entries
manifest_with names = entry "stable_features" (list (elements names)) no_entries
