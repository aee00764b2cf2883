-- ===== src/Pull.antt =====
-- links/cli.py: `policy_pull`, from the updates and the manifest that were fetched to the decision on
-- one update. The files, the printing and the receipt are left out; an Exit is an outcome.
pub mod Applied
use policy_mesh.Update.{
  verify_update_any, policy_hashes, ◌>>=◌, ok, raise, Result, Crypto, VillagePolicyUpdate,
}
use policy_mesh.Prelude.{
  ◌&&◌, [], not, ◌==◌, if◌then◌else◌, ◌∷◌, false, none, some, true, ℕ, Bool, List, Option, String,
}
use policy_mesh.Admission.{evaluate_policy_update, is_false, apply, Reason, Decision}
use policy_mesh.Feed.Manifest.{verify_manifest_against_policy, PolicyFeedManifest, ManifestPayload}
use policy_mesh.Reconcile.{reconcile, max_from, ReconciliationReport}
use policy_mesh.Json.{Entries}
use policy_mesh.Feed.Policy.{has_any, signer_allowed, FeedMessage}
use policy_mesh.Feed.Gaps.{fill_history_gaps, Fetch}

pub record Pulled : Type 0 where
  pub chosen : VillagePolicyUpdate
  pub report : ReconciliationReport
  pub manifest_ok : Option Bool
  pub decision : Decision
  pub reason_codes : List Reason
  pub applied : Bool
  pub fetched_parent_hashes : List String
  pub unresolved_parent_hashes : List String

pub data Outcome : Type 0 where
  no_updates : Outcome
  invalid_material : String → Outcome
  manifest_failed : Outcome
  decided : Pulled → Outcome

-- `next((u for u in updates if u.policy_hash == chosen_hash), None)`
unfoldable pub find_update : Option String → List VillagePolicyUpdate → Option VillagePolicyUpdate
find_update none us = none
find_update (some h) [] = none
find_update (some h) (u ∷ us) =
    let later = find_update (some h) us in if u.policy_hash == h then some u else later

-- the update with the greatest time and hash, where none has the selected hash
unfoldable pub choose :
    Option VillagePolicyUpdate
    → VillagePolicyUpdate
    → List VillagePolicyUpdate
    → VillagePolicyUpdate
choose none u us = max_from u us
choose (some v) u us = v

abbrev pub is_apply : Decision → Bool
is_apply apply = true
is_apply _ = false

-- What `policy_pull` is given, and what it reads: the village's policy, its updates, the manifest that
-- was fetched or the error of `PolicyFeedManifest.model_validate` on it, the peer's updates by hash, and
-- the clock.
pub record PullContext : Type 0 where
  pub village_id : String
  pub apply_flag : Bool
  pub current_policy : Entries
  pub local_updates : List VillagePolicyUpdate
  pub manifest : Option (Result PolicyFeedManifest)
  pub fetch_update_by_hash : Fetch
  pub now : ℕ

module _ (C : Crypto) (manifest_json : ManifestPayload → List ℕ) (accepts_signature : List ℕ → Bool)
    (message_text : FeedMessage → String) where
  -- the loop over the fetched updates: the first with an invalid signature
  unfoldable pub check_material : List VillagePolicyUpdate → Result (Option String)
  check_material [] = ok none
  check_material (u ∷ us) =
      let rest = check_material us in
      if not (has_any u)
      then rest
      else do good ← verify_update_any C u; if good then rest else ok (some u.policy_hash)

  -- the `try` block, whose exceptions all give `False`
  unfoldable pub check_pulled_manifest : Entries → Option (Result PolicyFeedManifest) → Option Bool
  check_pulled_manifest policy none = none
  check_pulled_manifest policy (some (raise problem)) = some false
  check_pulled_manifest policy (some (ok m)) =
      elim (verify_manifest_against_policy C manifest_json accepts_signature policy m) [
        | raise problem ↦ some false
        | ok answer ↦ some answer.0
      ]

  -- the receipt's evidence and the decision, which says whether the update is written
  unfoldable pub pulled_of :
      PullContext
      → Option Bool
      → List String
      → List String
      → ReconciliationReport
      → VillagePolicyUpdate
      → Bool × FeedMessage
      → Pulled
  pulled_of q manifest_ok fetched unresolved report chosen (signer_ok, message) =
      let answer =
        evaluate_policy_update q.current_policy chosen manifest_ok signer_ok (message_text message)
          q.now in
      record {
        chosen = chosen;
        report = report;
        manifest_ok = manifest_ok;
        decision = answer.0;
        reason_codes = answer.1;
        applied = q.apply_flag && is_apply answer.0;
        fetched_parent_hashes = fetched;
        unresolved_parent_hashes = unresolved;
      }

  -- the updates after the gaps are filled, which are at least those that were fetched
  unfoldable pub decide :
      PullContext
      → Option Bool
      → List String
      → List String
      → List VillagePolicyUpdate
      → Result Outcome
  unfolding find_update choose pulled_of
  decide q manifest_ok fetched unresolved [] = ok no_updates
  decide q manifest_ok fetched unresolved (u ∷ us) = do
    let report = reconcile C q.local_updates (u ∷ us) q.village_id
    let chosen = choose (find_update report.selected_head (u ∷ us)) u us
    signer ← signer_allowed C q.current_policy chosen
    ok (decided (pulled_of q manifest_ok fetched unresolved report chosen signer))

  unfoldable pub pull_checked : PullContext → List VillagePolicyUpdate → Result Outcome
  unfolding check_pulled_manifest decide
  pull_checked q updates =
      let manifest_ok = check_pulled_manifest q.current_policy q.manifest in
      let filled =
        fill_history_gaps updates (policy_hashes q.local_updates) q.fetch_update_by_hash 500 in
      if is_false manifest_ok
      then ok manifest_failed
      else decide q manifest_ok filled.fetched filled.unresolved filled.combined

  pull_from : PullContext → List VillagePolicyUpdate → Option String → Result Outcome
  pull_from q updates none = pull_checked q updates
  pull_from q updates (some bad) = ok (invalid_material bad)

  unfoldable pub policy_pull : PullContext → List VillagePolicyUpdate → Result Outcome
  unfolding pull_from pull_checked check_material
  policy_pull q [] = ok no_updates
  policy_pull q (u ∷ us) = do bad ← check_material (u ∷ us); pull_from q (u ∷ us) bad
