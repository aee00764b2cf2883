-- ===== src/Feed/Gaps/Invariant.antt =====
-- `fill_history_gaps` of links/policy_feed.py keeps an invariant.
use policy_mesh.Feed.Gaps.{
  by_hash, parents, start, turn, union, suc, hit, loop, miss, step, State, put, Fetch, fetch_update,
  wanted_parent,
}
use policy_mesh.Prelude.{
  zero, length, ltb, Option-cases, ℕ, All-map, contains-add, eq_refl, inr, refl, contains-append,
  eq_iff, inl, none, Bool-cases, [], add, arith, truthy, ◌||◌, Bool, not, some, true, ◌++◌, ◌==◌,
  ◌∷◌, All, Option, ◌≡◌, List, String, contains,
}
use policy_mesh.Update.{policy_hashes, VillagePolicyUpdate}

-- The parent, if there is one, is in one of the three lists.
abbrev pub covers : List String → List String → List String → Option String → Bool
covers known pending unresolved none = true
covers known pending unresolved (some p) =
    not (truthy p) || (contains p known || (contains p pending || contains p unresolved))

abbrev pub Covered : List String → List String → List String → VillagePolicyUpdate → Type 0
Covered known pending unresolved u = covers known pending unresolved u.previous_policy_hash ≡ true

pub record Inv (known₀ : List String) (s : State) : Type 0 where
  pub covered : All (Covered s.known s.pending s.unresolved) s.updates_by_hash
  pub settled :
      (h : String)
      → contains h s.seen_pending ≡ true
      → (contains h s.known || contains h s.unresolved) ≡ true
  pub sourced :
      (h : String)
      → contains h s.known ≡ true
      → (contains h known₀ || contains h (policy_hashes s.updates_by_hash)) ≡ true

All-put :
    (P : VillagePolicyUpdate → Type 0) (u : VillagePolicyUpdate) (us : List VillagePolicyUpdate)
    → P u
    → All P us
    → All P (put u us)
unfolding put
All-put P u [] p a = (p, tt)
All-put P u (v ∷ us) p a = elim (Bool-cases (v.policy_hash == u.policy_hash)) [
  | inl e ↦ rw e (p, a.1)
  | inr e ↦ rw e (a.0, All-put P u us p a.1)
]

contains-put :
    (u : VillagePolicyUpdate) (us : List VillagePolicyUpdate) (h : String)
    → contains h (policy_hashes (put u us)) ≡ (u.policy_hash == h || contains h (policy_hashes us))
unfolding put contains
contains-put u [] h = refl
contains-put u (v ∷ us) h = ground (arith, contains-put u us h, eq_iff v.policy_hash u.policy_hash)

covers-skip :
    (known unresolved : List String) (wanted : String) (rest : List String) (o : Option String)
    → (not (truthy wanted) || (contains wanted known || contains wanted unresolved)) ≡ true
    → covers known (wanted ∷ rest) unresolved o ≡ true
    → covers known rest unresolved o ≡ true
unfolding contains
covers-skip known unresolved wanted rest none g c = refl
covers-skip known unresolved wanted rest (some p) g c = ground (arith, eq_iff wanted p)

covers-miss :
    (known unresolved : List String) (wanted : String) (rest : List String) (o : Option String)
    → covers known (wanted ∷ rest) unresolved o ≡ true
    → covers known rest (unresolved ++ (wanted ∷ [])) o ≡ true
unfolding contains
covers-miss known unresolved wanted rest none c = refl
covers-miss known unresolved wanted rest (some p) c =
    ground (arith, contains-append p unresolved (wanted ∷ []))

covers-hit :
    (known unresolved : List String) (wanted : String) (rest more : List String) (o : Option String)
    → covers known (wanted ∷ rest) unresolved o ≡ true
    → covers (add wanted known) (rest ++ more) unresolved o ≡ true
unfolding contains
covers-hit known unresolved wanted rest more none c = refl
covers-hit known unresolved wanted rest more (some p) c =
    ground (arith, contains-append p rest more, contains-add wanted p known)

covers-new :
    (known unresolved rest : List String) (o : Option String)
    → covers known (rest ++ wanted_parent known o) unresolved o ≡ true
unfolding contains
covers-new known unresolved rest none = refl
covers-new known unresolved rest (some p) =
    ground (arith, contains-append p rest (wanted_parent known (some p)), eq_refl p)

-- An update that is fetched by a hash has that hash.
abbrev pub Honest : Fetch → Type 0
Honest fetch =
    (h : String) (u : VillagePolicyUpdate) → fetch_update fetch h ≡ some u → u.policy_hash ≡ h

module _ (known₀ : List String) (s : State) (wanted : String) (rest : List String) where
  abbrev Before : Type 0
  Before = Inv known₀ s × (s.pending ≡ wanted ∷ rest)

  before-Covered : Before → All (Covered s.known (wanted ∷ rest) s.unresolved) s.updates_by_hash
  before-Covered b = rw b.1 at b.0.covered

  skip-Inv :
      Before
      → (not (truthy wanted) || (contains wanted s.known || contains wanted s.seen_pending)) ≡ true
      → Inv known₀ (record s { pending = rest })
  skip-Inv b g = record {
    covered =
        All-map s.updates_by_hash
          (λ u.
            covers-skip s.known s.unresolved wanted rest u.previous_policy_hash
              (ground (arith, b.0.settled wanted)))
          (before-Covered b);
    settled = b.0.settled;
    sourced = b.0.sourced;
  }

  miss-Inv : Before → Inv known₀ (miss s wanted rest)
  unfolding miss contains
  miss-Inv b = record {
    covered =
        All-map s.updates_by_hash
          (λ u. covers-miss s.known s.unresolved wanted rest u.previous_policy_hash)
          (before-Covered b);
    settled = λ h c. ground (
      arith,
      b.0.settled h,
      contains-add wanted h s.seen_pending,
      contains-append h s.unresolved (wanted ∷ []),
    );
    sourced = b.0.sourced;
  }

  hit-Inv :
      (u : VillagePolicyUpdate) → u.policy_hash ≡ wanted → Before → Inv known₀ (hit s wanted rest u)
  unfolding hit
  hit-Inv u e b =
      let known = add u.policy_hash s.known in
      record {
        covered =
            All-put
              (Covered known (rest ++ wanted_parent known u.previous_policy_hash) s.unresolved) u
              s.updates_by_hash (covers-new known s.unresolved rest u.previous_policy_hash)
              (rw e (
                All-map s.updates_by_hash
                  (λ v.
                    covers-hit s.known s.unresolved wanted rest
                      (wanted_parent (add wanted s.known) u.previous_policy_hash)
                      v.previous_policy_hash)
                  (before-Covered b)));
        settled = λ h c. ground (
          arith,
          e,
          b.0.settled h,
          contains-add wanted h s.seen_pending,
          contains-add wanted h s.known,
        );
        sourced = λ h c. ground (
          arith,
          b.0.sourced h,
          contains-add u.policy_hash h s.known,
          contains-put u s.updates_by_hash h,
        );
      }

  step-Inv : (fetch : Fetch) → Honest fetch → Before → Inv known₀ (step fetch s wanted rest)
  unfolding step
  step-Inv fetch honest b =
      elim (Bool-cases
        (not (truthy wanted) || (contains wanted s.known || contains wanted s.seen_pending))) [
          | inl g ↦ rw g (skip-Inv b g)
          | inr g ↦ elim (Option-cases (fetch_update fetch wanted)) [
            | inl f ↦ rw (g, f) (miss-Inv b)
            | inr (u, f) ↦ rw (g, f) (hit-Inv u (honest wanted u f) b)
          ]
        ]

turn-Inv :
    (known₀ : List String) (max_fetch : ℕ) (fetch : Fetch) (again : State → State) (s : State)
    (pending : List String)
    → Honest fetch
    → ((t : State) → Inv known₀ t → Inv known₀ (again t))
    → s.pending ≡ pending
    → Inv known₀ s
    → Inv known₀ (turn max_fetch fetch again s pending)
unfolding turn
turn-Inv known₀ max_fetch fetch again s [] honest ih e v = v
turn-Inv known₀ max_fetch fetch again s (wanted ∷ rest) honest ih e v =
    elim (Bool-cases (ltb (length s.fetched) max_fetch)) [
      | inl lt ↦ rw lt (ih _ (step-Inv known₀ s wanted rest fetch honest (v, e)))
      | inr ge ↦ rw ge v
    ]

pub loop-Inv :
    (known₀ : List String) (fuel max_fetch : ℕ) (fetch : Fetch) (s : State)
    → Honest fetch
    → Inv known₀ s
    → Inv known₀ (loop fuel max_fetch fetch s)
unfolding loop
loop-Inv known₀ zero max_fetch fetch s honest v = v
loop-Inv known₀ (suc fuel) max_fetch fetch s honest v =
    turn-Inv known₀ max_fetch fetch (loop fuel max_fetch fetch) s s.pending honest
      (λ t. loop-Inv known₀ fuel max_fetch fetch t honest) refl v

covers_mono :
    (known pending more unresolved : List String) (o : Option String)
    → covers known pending unresolved o ≡ true
    → covers known (more ++ pending) unresolved o ≡ true
covers_mono known pending more unresolved none c = refl
covers_mono known pending more unresolved (some p) c =
    ground (arith, contains-append p more pending)

covers-first :
    (known rest : List String) (o : Option String)
    → covers known (wanted_parent known o ++ rest) [] o ≡ true
unfolding contains
covers-first known rest none = refl
covers-first known rest (some p) =
    ground (arith, contains-append p (wanted_parent known (some p)) rest, eq_refl p)

covers-parents :
    (known : List String) (us : List VillagePolicyUpdate)
    → All (λ u. covers known (parents known us) [] u.previous_policy_hash ≡ true) us
unfolding parents
covers-parents known [] = tt
covers-parents known (u ∷ us) = (
  covers-first known (parents known us) u.previous_policy_hash,
  All-map us
      (λ v.
        covers_mono known (parents known us) (wanted_parent known u.previous_policy_hash) []
          v.previous_policy_hash)
      (covers-parents known us),
)

contains-union :
    (known hs : List String) (h : String)
    → contains h (union known hs) ≡ (contains h known || contains h hs)
unfolding union contains
contains-union known [] h = ground arith
contains-union known (k ∷ hs) h =
    ground (arith, contains-union (add k known) hs h, contains-add k h known)

pub start-Inv :
    (initial : List VillagePolicyUpdate) (known₀ : List String) → Inv known₀ (start initial known₀)
unfolding start contains
start-Inv initial known₀ = record {
  covered = covers-parents _ (by_hash [] initial);
  settled = λ h c. cc;
  sourced = λ h c. ground (arith, contains-union known₀ (policy_hashes (by_hash [] initial)) h);
}
