-- ===== src/Server/Reads.antt =====
-- links/server.py: routes that read the feed of a village, and latest_policy_update and
-- get_policy_update_by_hash of links/policy_feed.py. The answers are the updates before they are dumped.
pub mod After
use policy_mesh.Feed.Order.{sort, le_key}
use policy_mesh.Prelude.{
  ◌||◌, false, Bool, ◌==◌, [], if◌then◌else◌, String, none, ◌∷◌, some, List, Option,
}
use policy_mesh.Update.{VillagePolicyUpdate}
use policy_mesh.Villages.Apply.{load_village, Node}
use policy_mesh.Villages.Name.{validate_village_id}
use policy_mesh.Feed.Page.{paginate_updates, filter_updates_since}
use policy_mesh.Villages.{Village}
use policy_mesh.Prelude.Int.{ℤ}

-- `sorted(ups, key=..., reverse=True)[0]`: the first of the greatest.
unfoldable pub pick_latest : VillagePolicyUpdate → List VillagePolicyUpdate → VillagePolicyUpdate
unfolding le_key
pick_latest best [] = best
pick_latest best (u ∷ us) = pick_latest (if le_key u best then best else u) us

unfoldable pub latest_policy_update : List VillagePolicyUpdate → Option VillagePolicyUpdate
unfolding pick_latest
latest_policy_update [] = none
latest_policy_update (u ∷ us) = some (pick_latest u us)

unfoldable pub get_policy_update_by_hash :
    List VillagePolicyUpdate → String → Option VillagePolicyUpdate
get_policy_update_by_hash [] policy_hash = none
get_policy_update_by_hash (u ∷ us) policy_hash =
    let later = get_policy_update_by_hash us policy_hash in
    if u.policy_hash == policy_hash then some u else later

-- What a route answers; `refused_name` is the ValueError of a name that is no village's.
pub data Found {ℓ} (A : Type ℓ) : Type ℓ where
  refused_name : Found A
  not_found : Found A
  found : A → Found A

abbrev pub or_not_found {ℓ} : {A : Type ℓ} → Option A → Found A
or_not_found none = not_found
or_not_found (some x) = found x

-- The updates of a directory in the order of their files' names.
module _ (by_name : List VillagePolicyUpdate → List VillagePolicyUpdate) where
  abbrev pub listed : Node → String → List VillagePolicyUpdate
  listed n village_id = by_name (n.rooms village_id).updates

  unfoldable pub policy_latest : Node → String → Found VillagePolicyUpdate
  unfolding validate_village_id latest_policy_update sort
  policy_latest n village_id =
      if validate_village_id village_id
      then or_not_found (latest_policy_update (sort (listed n village_id)))
      else refused_name

  unfoldable pub policy_update_by_hash : Node → String → String → Found VillagePolicyUpdate
  unfolding validate_village_id get_policy_update_by_hash
  policy_update_by_hash n village_id policy_hash =
      if validate_village_id village_id
      then or_not_found (get_policy_update_by_hash (listed n village_id) policy_hash)
      else refused_name

  unfoldable pub policy_updates : Node → String → Option String → Found (List VillagePolicyUpdate)
  unfolding validate_village_id filter_updates_since sort
  policy_updates n village_id since =
      if validate_village_id village_id
      then found (filter_updates_since (sort (listed n village_id)) since)
      else refused_name

  -- FastAPI has checked that the limit is from 1 to 500.
  unfoldable pub policy_updates_page :
      Node
      → String
      → Option String
      → Option String
      → ℤ
      → Found (List VillagePolicyUpdate × Option String)
  unfolding validate_village_id filter_updates_since paginate_updates sort
  policy_updates_page n village_id since cursor limit =
      if validate_village_id village_id
      then found
          (paginate_updates (filter_updates_since (sort (listed n village_id)) since) cursor limit)
      else refused_name

  -- `node_opt_in` is the flag of the environment; a village that cannot be loaded does not opt in.
  unfoldable pub public_latest_policy : Bool → Node → Node → String → Found VillagePolicyUpdate
  unfolding validate_village_id latest_policy_update load_village sort
  public_latest_policy node_opt_in villages store village_id =
      if validate_village_id village_id
      then if node_opt_in || opts_in (load_village villages village_id)
        then or_not_found (latest_policy_update (sort (listed store village_id)))
        else not_found
      else refused_name
    where
      opts_in : Option Village → Bool
      opts_in none = false
      opts_in (some v) = v.policy.public_policy_endpoint || v.policy.visibility == "public"
