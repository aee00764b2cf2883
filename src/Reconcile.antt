-- ===== src/Reconcile.antt =====
-- links/reconcile.py: what the histories of two sides have in common, and which head to go on with.
-- The updates of a fork are written with their times in UTC, whose texts are ordered as the times.
pub mod Counts
pub mod Forks
pub mod Laws
pub mod Report
use policy_mesh.Prelude.{
  minus, both, insert_text, sort_texts, length, is_empty, ltb, truthy, ◌&&◌, ◌==◌, contains, not,
  some, text_le, true, truthy?, [], false, if◌then◌else◌, map, none, ℕ, ◌++◌, ◌∷◌, Bool, List,
  Option, String, add,
}
use policy_mesh.Update.{compute_update_hash, Crypto, VillagePolicyUpdate}
use policy_mesh.Feed.Order.{sort, le_key}

-- `max` by the time and then the hash: the first one of the greatest
unfoldable pub max_from : VillagePolicyUpdate → List VillagePolicyUpdate → VillagePolicyUpdate
max_from best [] = best
max_from best (u ∷ us) = max_from (if le_key u best then best else u) us

unfoldable pub head : List VillagePolicyUpdate → Option String
unfolding max_from le_key
head [] = none
head (u ∷ us) = some (max_from u us).policy_hash

-- `prev == p`, for a hash or None
abbrev pub eq_parent : Option String → Option String → Bool
eq_parent none none = true
eq_parent (some a) (some b) = a == b
eq_parent _ _ = false

abbrev pub Groups : Type 0
Groups = List (Option String × List VillagePolicyUpdate)

-- `by_prev.setdefault(u.previous_policy_hash, []).append(u)`
unfoldable pub add_child : VillagePolicyUpdate → Groups → Groups
add_child u [] = (u.previous_policy_hash, u ∷ []) ∷ []
add_child u ((prev, children) ∷ rest) =
    let later = add_child u rest in
    if eq_parent prev u.previous_policy_hash
    then (prev, children ++ (u ∷ [])) ∷ rest
    else (prev, children) ∷ later

unfoldable pub group : Groups → List VillagePolicyUpdate → Groups
group by_prev [] = by_prev
group by_prev (u ∷ us) = group (add_child u by_prev) us

-- `{u.policy_hash for u in ups}`
unfoldable pub hash_set : List VillagePolicyUpdate → List String
unfolding add
hash_set [] = []
hash_set (u ∷ us) = add u.policy_hash (hash_set us)

pub record ForkChild : Type 0 where
  pub policy_hash : String
  pub created_at : ℕ
  pub update_hash : String
  pub lifecycle_state : String

pub record Fork : Type 0 where
  pub previous_policy_hash : String
  pub children : List ForkChild

pub record LineageIssue : Type 0 where
  pub policy_hash : String
  pub previous_policy_hash : String

-- `prev and prev not in seen`
unfoldable pub missing_parent : List String → VillagePolicyUpdate → List LineageIssue
missing_parent seen u = elim u.previous_policy_hash [
  | none ↦ []
  | some prev ↦
      if truthy prev && not (contains prev seen)
      then record { policy_hash = u.policy_hash; previous_policy_hash = prev } ∷ []
      else []
]

unfoldable pub issues_among : List String → List VillagePolicyUpdate → List LineageIssue
issues_among seen [] = []
issues_among seen (u ∷ us) = missing_parent seen u ++ issues_among seen us

unfoldable pub lineage_issues : List VillagePolicyUpdate → List LineageIssue
lineage_issues ups = issues_among (hash_set ups) ups

pub data SelectionReason : Type 0 where
  already_present : SelectionReason
  newer_and_consistent : SelectionReason
  retained_fork : SelectionReason
  retained_lineage : SelectionReason
  retained_fallback : SelectionReason

pub record Selection : Type 0 where
  pub selected_head : Option String
  pub selected_source : Option String
  pub selection_reason : SelectionReason

-- `local_head or remote_head`
abbrev or_head : Option String → Option String → Option String
or_head local_head remote_head = if truthy? local_head then local_head else remote_head

abbrev pub known : Option String → List String → Bool
known none hashes = false
known (some h) hashes = contains h hashes

-- The selection, of whether there are forks and lineage issues.
unfoldable pub select : Option String → Option String → List String → Bool → Bool → Selection
select local_head remote_head local_set has_forks has_issues =
    if truthy? remote_head && known remote_head local_set
    then record {
      selected_head = remote_head;
      selected_source = some "shared";
      selection_reason = already_present;
    }
    else if truthy? remote_head && (not has_forks && not has_issues)
    then record {
      selected_head = remote_head;
      selected_source = some "remote";
      selection_reason = newer_and_consistent;
    }
    else record {
      selected_head = or_head local_head remote_head;
      selected_source =
          if truthy? local_head
          then some "local"
          else if truthy? remote_head
          then some "remote"
          else none;
      selection_reason =
          if has_forks
          then retained_fork
          else if has_issues
          then retained_lineage
          else retained_fallback;
    }

pub data Status : Type 0 where
  fork : Status
  lineage_gap : Status
  drift : Status
  aligned : Status

unfoldable pub status_of : Bool → Bool → Bool → Status
status_of has_forks has_issues has_drift =
    if has_forks
    then fork
    else if has_issues
    then lineage_gap
    else if has_drift
    then drift
    else aligned

-- The time of the report is left out.
pub record ReconciliationReport : Type 0 where
  pub village_id : String
  pub local_head : Option String
  pub remote_head : Option String
  pub selected_head : Option String
  pub drift : Bool
  pub status : Status
  pub local_count : ℕ
  pub remote_count : ℕ
  pub shared_count : ℕ
  pub fork_count : ℕ
  pub forks : List Fork
  pub missing_local : List String
  pub missing_remote : List String
  pub selected_source : Option String
  pub selection_reason : SelectionReason
  pub lineage_issues : List LineageIssue

module _ (C : Crypto) where
  children_of : List VillagePolicyUpdate → List ForkChild
  children_of = map (λ c. record {
    policy_hash = c.policy_hash;
    created_at = c.created_at;
    update_hash = compute_update_hash C c;
    lifecycle_state = c.lifecycle_state;
  })

  -- the loop over the groups
  unfoldable pub forks_of : Groups → List Fork
  unfolding children_of
  forks_of [] = []
  forks_of ((none, children) ∷ rest) = forks_of rest
  forks_of ((some prev, children) ∷ rest) =
      let later = forks_of rest in
      if ltb 1 (length (hash_set children))
      then record { previous_policy_hash = prev; children = children_of (sort children) } ∷ later
      else later

  unfoldable pub detect_forks : List VillagePolicyUpdate → List Fork
  detect_forks ups = forks_of (group [] ups)

  unfoldable pub reconcile :
      List VillagePolicyUpdate → List VillagePolicyUpdate → String → ReconciliationReport
  unfolding sort_texts insert_text
  reconcile local remote village_id =
      let local_set = hash_set local in
      let remote_set = hash_set remote in
      let forks = detect_forks (local ++ remote) in
      let issues = lineage_issues (local ++ remote) in
      let has_drift = not (eq_parent (head local) (head remote)) in
      let selection =
        select (head local) (head remote) local_set (not (is_empty forks))
          (not (is_empty issues)) in
      record {
        village_id = village_id;
        local_head = head local;
        remote_head = head remote;
        selected_head = selection.selected_head;
        drift = has_drift;
        status = status_of (not (is_empty forks)) (not (is_empty issues)) has_drift;
        local_count = length local_set;
        remote_count = length remote_set;
        shared_count = length (both local_set remote_set);
        fork_count = length forks;
        forks = forks;
        missing_local = sort_texts (minus remote_set local_set);
        missing_remote = sort_texts (minus local_set remote_set);
        selected_source = selection.selected_source;
        selection_reason = selection.selection_reason;
        lineage_issues = issues;
      }
