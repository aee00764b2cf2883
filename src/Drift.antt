-- ===== src/Drift.antt =====
-- links/drift_classes.py: the drift taxonomy, its classifier and its severities. A note is the
-- values that its text interpolates.
pub mod Laws
pub mod Compare
use Prim.Native.Nat.{◌-◌}
pub mod Signed
use policy_mesh.Prelude.{
  ℕ, String, Bool, true, false, not, ◌&&◌, ◌||◌, List, [], ◌∷◌, ◌++◌, ◌==◌, nat_eq, ltb, truthy,
  if◌then◌else◌,
}

-- The entry counts agree or not; the two directions of the lag text.
pub data Note : Type 0 where
  cannot_classify : Note
  checkpoint_hashes_differ : String → String → Note
  peer_ahead_by : ℕ → Note
  local_ahead_by : ℕ → Note
  policy_hash_mismatch : String → String → Note
  entry_counts_differ : ℕ → ℕ → Note
  policy_divergence_response : Note

pub record Observation : Type 0 where
  pub local_policy_hash : String
  pub peer_policy_hash : String
  pub local_entry_count : ℕ
  pub peer_entry_count : ℕ
  pub local_checkpoint_hash : String
  pub peer_checkpoint_hash : String

-- `lag` and `direction`
lag_note : ℕ → ℕ → Note
lag_note local peer =
    if ltb local peer then peer_ahead_by (peer - local) else local_ahead_by (local - peer)

classify_matching : Observation → Bool → String × List Note
classify_matching o true =
    if truthy o.local_checkpoint_hash
      && (truthy o.peer_checkpoint_hash && not (o.local_checkpoint_hash == o.peer_checkpoint_hash))
    then (
      "history_only_divergence",
      checkpoint_hashes_differ o.local_checkpoint_hash o.peer_checkpoint_hash ∷ [],
    )
    else ("aligned", [])
classify_matching o false =
    ("publication_lag", lag_note o.local_entry_count o.peer_entry_count ∷ [])

classify_diverging : Observation → Bool → String × List Note
classify_diverging o count_match = (
  "policy_divergence",
  policy_hash_mismatch o.local_policy_hash o.peer_policy_hash
      ∷ ((if count_match
            then []
            else entry_counts_differ o.local_entry_count o.peer_entry_count ∷ [])
          ++ (policy_divergence_response ∷ [])),
)

unfoldable pub classify_checkpoint_drift : Observation → String × List Note
unfolding classify_matching classify_diverging lag_note
classify_checkpoint_drift o =
    if not (truthy o.local_policy_hash) || not (truthy o.peer_policy_hash)
    then ("unknown", cannot_classify ∷ [])
    else let count_match = nat_eq o.local_entry_count o.peer_entry_count in
      if o.local_policy_hash == o.peer_policy_hash
      then classify_matching o count_match
      else classify_diverging o count_match

-- `DRIFT_CLASS_SEVERITY.get(drift_class, 1)`
unfoldable pub drift_severity : String → ℕ
drift_severity c =
    if c == "aligned"
    then 0
    else if c == "publication_lag"
    then 1
    else if c == "history_only_divergence"
    then 2
    else if c == "policy_divergence"
    then 3
    else 1

-- `max(..., key=drift_severity)` keeps the first of the greatest
max_by_severity : String → List String → String
max_by_severity best [] = best
max_by_severity best (c ∷ cs) =
    max_by_severity (if ltb (drift_severity best) (drift_severity c) then c else best) cs

unfoldable pub most_severe : List String → String
unfolding max_by_severity
most_severe [] = "unknown"
most_severe (c ∷ cs) = max_by_severity c cs
