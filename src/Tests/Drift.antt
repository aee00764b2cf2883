-- ===== src/Tests/Drift.antt =====
-- Tests of links/drift_classes.py and of the comparison in links/checkpoint_exchange.py.
use policy_mesh.Drift.Compare.{Checkpoint}
use policy_mesh.Drift.{
  peer_ahead_by, drift_severity, Observation, classify_checkpoint_drift, most_severe,
}
use policy_mesh.Drift.Laws.{classify-eq_iff, Classified}
use policy_mesh.Prelude.{refl, [], ◌↔◌, ◌∷◌, some, ◌≡◌}

abbrev lagging : Observation
lagging = record {
  local_policy_hash = "x";
  peer_policy_hash = "x";
  local_entry_count = 3;
  peer_entry_count = 5;
  local_checkpoint_hash = "";
  peer_checkpoint_hash = "";
}

lag : classify_checkpoint_drift lagging ≡ ("publication_lag", peer_ahead_by 2 ∷ [])
unfolding classify_checkpoint_drift
lag = refl

classify-eq_iff_example :
    ((classify_checkpoint_drift lagging).0 ≡ "publication_lag")
    ↔ Classified lagging "publication_lag"
classify-eq_iff_example = classify-eq_iff lagging "publication_lag"

worst : most_severe ("aligned" ∷ "publication_lag" ∷ "unknown" ∷ []) ≡ "publication_lag"
unfolding most_severe drift_severity
worst = refl

abbrev checkpoint : Checkpoint
checkpoint = record {
  village_id = some "ops";
  checkpoint_hash = some "c1";
  latest_policy_hash = some "x";
  entry_count = some 3;
}
