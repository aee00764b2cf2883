-- ===== src/Feed/Page.antt =====
-- links/policy_feed.py: the updates since a hash, and cursor pagination. A feed is the sorted list
-- of stored updates.
pub mod Walk
pub mod Since
use policy_mesh.Prelude.{
  get_last?, length, [], false, ltb, ◌||◌, drop, none, truthy, ◌+◌, ◌==◌, some, take, ◌∷◌, Bool,
  if◌then◌else◌, List, Option, String, ℕ,
}
use policy_mesh.Prelude.Int.{pos_part, pos, ltb_ℤ, ℤ}
use policy_mesh.Update.{VillagePolicyUpdate}

-- `[u for u in ups after the first whose hash is since_hash]`: once seen, every update is kept
since_loop : String → Bool → List VillagePolicyUpdate → List VillagePolicyUpdate
since_loop h seen [] = []
since_loop h seen (u ∷ ups) =
    let rest = since_loop h (u.policy_hash == h || seen) ups in if seen then u ∷ rest else rest

unfoldable pub filter_updates_since :
    List VillagePolicyUpdate → Option String → List VillagePolicyUpdate
unfolding since_loop
filter_updates_since ups none = ups
filter_updates_since ups (some since_hash) =
    if truthy since_hash then since_loop since_hash false ups else ups

-- The two tests on `limit`.
unfoldable pub clamp_limit : ℤ → ℕ
clamp_limit limit =
    if ltb_ℤ limit (pos 1) then 1 else if ltb_ℤ (pos 500) limit then 500 else pos_part limit

-- The index after the first update with the hash, or 0.
unfoldable pub index_after : ℕ → String → List VillagePolicyUpdate → ℕ
index_after i cursor [] = 0
index_after i cursor (u ∷ ups) =
    let rest = index_after (i + 1) cursor ups in if u.policy_hash == cursor then i + 1 else rest

unfoldable pub start_index : List VillagePolicyUpdate → Option String → ℕ
start_index ups none = 0
start_index ups (some cursor) = if truthy cursor then index_after 0 cursor ups else 0

last_hash : Option VillagePolicyUpdate → Option String
last_hash none = none
last_hash (some u) = some u.policy_hash

unfoldable pub paginate_updates :
    List VillagePolicyUpdate → Option String → ℤ → List VillagePolicyUpdate × Option String
unfolding clamp_limit start_index index_after last_hash
paginate_updates ups cursor limit =
    let n = clamp_limit limit in
    let start_idx = start_index ups cursor in
    let items = take n (drop start_idx ups) in
    (items, if ltb (start_idx + n) (length ups) then last_hash (get_last? items) else none)
