-- ===== src/Feed/Gaps/Complete.antt =====
-- `fill_history_gaps` of links/policy_feed.py leaves no gap unreported, and ends.
use policy_mesh.Feed.Gaps.Invariant.{start-Inv, loop-Inv, Inv, Honest, covers}
use policy_mesh.Feed.Gaps.{
  fetch_update, turn, wanted_parent, loop, rounds, start, leave, some, State, Fetch, Filled, hit,
  miss, drain, fill_history_gaps, step,
}
use policy_mesh.Prelude.{
  length-append, add, Option-cases, ltb→lt, inr, ltb, Bool-cases, ap, zero, inl, suc, ◌⊎◌, All-map,
  ◌+◌, eq_iff, refl, ◌≤◌, contains-append, none, truthy, arith, not, ◌<◌, All, [], length, ◌||◌,
  true, Bool, ℕ, ◌∷◌, ◌≡◌, Option, String, List, contains,
}
use policy_mesh.Update.{policy_hashes, VillagePolicyUpdate}
use policy_mesh.Feed.Order.Latest.{contains-sort, All-sort}

covers-turn :
    (known unresolved : List String) (wanted : String) (rest : List String) (o : Option String)
    → covers known (wanted ∷ rest) unresolved o ≡ true
    → covers known rest (leave known unresolved wanted) o ≡ true
unfolding contains
covers-turn known unresolved wanted rest none c = refl
covers-turn known unresolved wanted rest (some p) c =
    ground (arith, contains-append p unresolved (wanted ∷ []), eq_iff wanted p)

covers-drain :
    (known unresolved pending : List String) (o : Option String)
    → covers known pending unresolved o ≡ true
    → covers known [] (drain known unresolved pending) o ≡ true
unfolding drain
covers-drain known unresolved [] o c = c
covers-drain known unresolved (wanted ∷ rest) o c =
    covers-drain known (leave known unresolved wanted) rest o
      (covers-turn known unresolved wanted rest o c)

-- The parent, if there is one, is known already, or combined, or unresolved.
abbrev pub reported : List String → Filled → Option String → Bool
reported known₀ r none = true
reported known₀ r (some p) =
    not (truthy p)
    || (contains p known₀ || (contains p (policy_hashes r.combined) || contains p r.unresolved))

covers-reported :
    (known₀ known unresolved : List String) (r : Filled) (o : Option String)
    → ((h : String)
        → contains h known ≡ true
        → (contains h known₀ || contains h (policy_hashes r.combined)) ≡ true)
    → covers known [] r.unresolved o ≡ true
    → reported known₀ r o ≡ true
unfolding contains
covers-reported known₀ known unresolved r none sourced c = refl
covers-reported known₀ known unresolved r (some p) sourced c = ground (arith, sourced p)

-- If the fetch function is honest, the parent of every update of the result is known beforehand,
-- or in the result, or reported as unresolved.
pub fill-reported :
    (initial : List VillagePolicyUpdate) (known₀ : List String) (fetch : Fetch) (max_fetch : ℕ)
    → Honest fetch
    → let r = fill_history_gaps initial known₀ fetch max_fetch in
      All (λ u. reported known₀ r u.previous_policy_hash ≡ true) r.combined
unfolding fill_history_gaps
fill-reported initial known₀ fetch max_fetch honest =
    let s₀ = start initial known₀ in
    let s = loop (rounds max_fetch s₀) max_fetch fetch s₀ in
    let r = fill_history_gaps initial known₀ fetch max_fetch in
    let v : Inv known₀ s =
      loop-Inv known₀ (rounds max_fetch s₀) max_fetch fetch s₀ honest (start-Inv initial known₀) in
    All-sort (λ u. reported known₀ r u.previous_policy_hash ≡ true) s.updates_by_hash
      (All-map s.updates_by_hash
        (λ u c.
          covers-reported known₀ s.known [] r u.previous_policy_hash
            (λ h k. rw contains-sort (v.sourced h k))
            (covers-drain s.known s.unresolved s.pending u.previous_policy_hash c))
        v.covered)

length-wanted_parent :
    (known : List String) (o : Option String) → length (wanted_parent known o) ≤ 1
length-wanted_parent known none = omega arith
length-wanted_parent known (some p) = ground arith

-- One round leaves fewer rounds, and fetches one update at most.
Falls : ℕ → State → State → Type 0
Falls max_fetch s t =
    (rounds max_fetch t < rounds max_fetch s) × (length t.fetched ≤ length s.fetched + 1)

step-Falls :
    (fetch : Fetch) (max_fetch : ℕ) (s : State) (wanted : String) (rest : List String)
    → s.pending ≡ wanted ∷ rest
    → length s.fetched < max_fetch
    → Falls max_fetch s (step fetch s wanted rest)
unfolding step miss hit Falls
step-Falls fetch max_fetch s wanted rest e lt =
    let n : length s.pending ≡ suc (length rest) = ap length e in
    elim (Bool-cases
      (not (truthy wanted) || (contains wanted s.known || contains wanted s.seen_pending))) [
        | inl g ↦ rw g (omega arith, omega arith)
        | inr g ↦ elim (Option-cases (fetch_update fetch wanted)) [
          | inl f ↦ rw (g, f) (omega arith, omega arith)
          | inr (u, f) ↦
              let known = add u.policy_hash s.known in
              let a = length-append s.fetched (u.policy_hash ∷ []) in
              let b = length-append rest (wanted_parent known u.previous_policy_hash) in
              let c = length-wanted_parent known u.previous_policy_hash in
              rw (g, f) (omega arith, omega arith)
        ]
      ]

empty : (xs : List String) → length xs ≤ 0 → xs ≡ []
empty [] h = refl
empty (x ∷ xs) h = absurd (omega arith)

-- The loop has ended by its own test.
abbrev pub Ended : ℕ → State → Type 0
Ended max_fetch s =
    (length s.fetched ≤ max_fetch) × ((s.pending ≡ []) ⊎ (length s.fetched ≡ max_fetch))

turn-Ended :
    (max_fetch : ℕ) (fetch : Fetch) (again : State → State) (s : State) (pending : List String)
    → ((t : State)
        → rounds max_fetch t < rounds max_fetch s
        → length t.fetched ≤ max_fetch
        → Ended max_fetch (again t))
    → s.pending ≡ pending
    → length s.fetched ≤ max_fetch
    → Ended max_fetch (turn max_fetch fetch again s pending)
unfolding turn
turn-Ended max_fetch fetch again s [] ih e le = (le, inl e)
turn-Ended max_fetch fetch again s (wanted ∷ rest) ih e le =
    elim (Bool-cases (ltb (length s.fetched) max_fetch)) [
      | inl lt ↦
          let f : Falls max_fetch s (step fetch s wanted rest) =
            step-Falls fetch max_fetch s wanted rest e (ltb→lt _ _ lt) in
          rw lt (ih _ (unfold Falls in f.0) (unfold Falls in omega (arith, f.1, ltb→lt _ _ lt)))
      | inr ge ↦ rw ge (le, inr (ground arith))
    ]

loop-Ended :
    (fuel max_fetch : ℕ) (fetch : Fetch) (s : State)
    → rounds max_fetch s ≤ fuel
    → length s.fetched ≤ max_fetch
    → Ended max_fetch (loop fuel max_fetch fetch s)
unfolding loop
loop-Ended zero max_fetch fetch s f le = (le, inl (empty s.pending (omega arith)))
loop-Ended (suc fuel) max_fetch fetch s f le =
    turn-Ended max_fetch fetch (loop fuel max_fetch fetch) s s.pending
      (λ t lt k. loop-Ended fuel max_fetch fetch t (omega arith) k) refl le

-- The fuel of `fill_history_gaps` is enough: its loop ends by its own test, with nothing pending or
-- with `max_fetch` updates fetched, and never fetches more.
pub fill-Ended :
    (initial : List VillagePolicyUpdate) (known₀ : List String) (fetch : Fetch) (max_fetch : ℕ)
    → let s₀ = start initial known₀ in
      Ended max_fetch (loop (rounds max_fetch s₀) max_fetch fetch s₀)
      × (length (fill_history_gaps initial known₀ fetch max_fetch).fetched ≤ max_fetch)
unfolding fill_history_gaps
fill-Ended initial known₀ fetch max_fetch =
    let s₀ = start initial known₀ in
    let e : Ended max_fetch (loop (rounds max_fetch s₀) max_fetch fetch s₀) =
      loop-Ended (rounds max_fetch s₀) max_fetch fetch s₀ (omega arith) (omega arith) in
    (e, e.0)
