-- ===== src/Feed/Gaps.antt =====
-- links/policy_feed.py: `fill_history_gaps`, which fetches missing parents one by one.
pub mod Invariant
pub mod Complete
use policy_mesh.Prelude.{
  List, contains, zero, ◌&&◌, ◌-◌, ◌||◌, ltb, map, none, not, truthy, ◌++◌, ◌+◌, ◌==◌, [], add,
  if◌then◌else◌, length, some, suc, ◌∷◌, Option, String, ℕ,
}
use policy_mesh.Update.{VillagePolicyUpdate}
use policy_mesh.Feed.Order.{sort}

-- The state of the loop; `updates_by_hash` keeps the order of insertion.
pub record State : Type 0 where
  pub updates_by_hash : List VillagePolicyUpdate
  pub known : List String
  pub fetched : List String
  pub unresolved : List String
  pub pending : List String
  pub seen_pending : List String

-- `updates_by_hash[u.policy_hash] = u`
unfoldable pub put : VillagePolicyUpdate → List VillagePolicyUpdate → List VillagePolicyUpdate
put u [] = u ∷ []
put u (v ∷ vs) = let rest = put u vs in if v.policy_hash == u.policy_hash then u ∷ vs else v ∷ rest

unfoldable pub by_hash :
    List VillagePolicyUpdate → List VillagePolicyUpdate → List VillagePolicyUpdate
by_hash d [] = d
by_hash d (u ∷ us) = by_hash (put u d) us

-- `prev and prev not in known`, as the list of the one hash or of none
abbrev pub wanted_parent : List String → Option String → List String
wanted_parent known none = []
wanted_parent known (some prev) = if truthy prev && not (contains prev known) then prev ∷ [] else []

unfoldable pub parents : List String → List VillagePolicyUpdate → List String
parents known [] = []
parents known (u ∷ us) = wanted_parent known u.previous_policy_hash ++ parents known us

unfoldable pub union : List String → List String → List String
union known [] = known
union known (h ∷ hs) = union (add h known) hs

unfoldable pub start : List VillagePolicyUpdate → List String → State
unfolding parents by_hash put union
start initial_updates known_policy_hashes =
    let updates = by_hash [] initial_updates in
    let known = union known_policy_hashes (map (λ u. u.policy_hash) updates) in
    record {
      updates_by_hash = updates;
      known = known;
      fetched = [];
      unresolved = [];
      pending = parents known updates;
      seen_pending = [];
    }

abbrev pub Fetch : Type 0
Fetch = Option (String → Option VillagePolicyUpdate)

abbrev pub fetch_update : Fetch → String → Option VillagePolicyUpdate
fetch_update none wanted = none
fetch_update (some fetch_update_by_hash) wanted = fetch_update_by_hash wanted

unfoldable pub miss : State → String → List String → State
miss s wanted rest = record s {
  pending = rest;
  seen_pending = add wanted s.seen_pending;
  unresolved = s.unresolved ++ (wanted ∷ []);
}

unfoldable pub hit : State → String → List String → VillagePolicyUpdate → State
hit s wanted rest u =
    let known = add u.policy_hash s.known in
    record s {
      updates_by_hash = put u s.updates_by_hash;
      known = known;
      fetched = s.fetched ++ (u.policy_hash ∷ []);
      pending = rest ++ wanted_parent known u.previous_policy_hash;
      seen_pending = add wanted s.seen_pending;
    }

-- The body of the loop, after `wanted = pending.pop(0)`.
unfoldable pub step : Fetch → State → String → List String → State
step fetch s wanted rest =
    if not (truthy wanted) || (contains wanted s.known || contains wanted s.seen_pending)
    then record s { pending = rest }
    else elim (fetch_update fetch wanted) [
      | none ↦ miss s wanted rest
      | some u ↦ hit s wanted rest u
    ]

-- `while pending and len(fetched) < max_fetch`, where `again` is the rest of the loop
unfoldable pub turn : ℕ → Fetch → (State → State) → State → List String → State
turn max_fetch fetch again s [] = s
turn max_fetch fetch again s (wanted ∷ rest) =
    if ltb (length s.fetched) max_fetch then again (step fetch s wanted rest) else s

unfoldable pub loop : ℕ → ℕ → Fetch → State → State
unfolding turn
loop zero max_fetch fetch s = s
loop (suc fuel) max_fetch fetch s = turn max_fetch fetch (loop fuel max_fetch fetch) s s.pending

-- The second loop: what is still pending is unresolved.
abbrev pub leave : List String → List String → String → List String
leave known unresolved wanted =
    if truthy wanted && (not (contains wanted known) && not (contains wanted unresolved))
    then unresolved ++ (wanted ∷ [])
    else unresolved

unfoldable pub drain : List String → List String → List String → List String
drain known unresolved [] = unresolved
drain known unresolved (wanted ∷ rest) = drain known (leave known unresolved wanted) rest

-- A bound on the rounds that are left.
abbrev pub rounds : ℕ → State → ℕ
rounds max_fetch s = length s.pending + (max_fetch - length s.fetched)

pub record Filled : Type 0 where
  pub combined : List VillagePolicyUpdate
  pub fetched : List String
  pub unresolved : List String

unfoldable pub fill_history_gaps : List VillagePolicyUpdate → List String → Fetch → ℕ → Filled
unfolding start loop step miss hit drain
fill_history_gaps initial_updates known_policy_hashes fetch max_fetch =
    let s₀ = start initial_updates known_policy_hashes in
    let s = loop (rounds max_fetch s₀) max_fetch fetch s₀ in
    record {
      combined = sort s.updates_by_hash;
      fetched = s.fetched;
      unresolved = drain s.known s.unresolved s.pending;
    }
