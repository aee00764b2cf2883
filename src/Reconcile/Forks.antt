-- ===== src/Reconcile/Forks.antt =====
-- Which forks are found: the grouping by parents loses and mixes up no update.
-- Whether some update has the parent and the hash.
use policy_mesh.Reconcile.{detect_forks, forks_of, eq_parent, Groups, add_child, group, hash_set}
use policy_mesh.Prelude.{
  sym, ◌∙◌, ap, none, some, refl, eq_refl, contains-append, eq_iff, inr, arith, inl, ◌==◌, ◌↔◌,
  Bool-cases, [], add-Distinct, if◌then◌else◌, length, true, ◌&&◌, ◌||◌, false, ltb, ◌++◌, ◌∷◌, ◌≡◌,
  Bool, Distinct, add, List, Option, String, contains,
}
use policy_mesh.Update.{Crypto, VillagePolicyUpdate}
use mathlib.Core.Path.{subst}

unfoldable pub is_child : String → String → List VillagePolicyUpdate → Bool
is_child p h [] = false
is_child p h (u ∷ us) =
    (eq_parent u.previous_policy_hash (some p) && u.policy_hash == h) || is_child p h us

-- Updates with one parent have one hash.
abbrev pub NoFork : List VillagePolicyUpdate → Type 0
NoFork ups = (p a b : String) → is_child p a ups ≡ true → is_child p b ups ≡ true → a ≡ b

pub eq_parent_iff : (a b : Option String) → (eq_parent a b ≡ true) ↔ (a ≡ b)
eq_parent_iff none none = (λ _. refl, λ _. refl)
eq_parent_iff none (some b) = (λ e. cc, λ e. cc)
eq_parent_iff (some a) none = (λ e. cc, λ e. cc)
eq_parent_iff (some a) (some b) = (λ e. ap some ((eq_iff a b).0 e), λ e. ground (arith, eq_iff a b))

-- The children of the first group of a parent.
unfoldable lookup : Option String → Groups → List VillagePolicyUpdate
lookup p [] = []
lookup p ((q, cs) ∷ rest) = let later = lookup p rest in if eq_parent q p then cs else later

unfoldable has_key : Option String → Groups → Bool
has_key p [] = false
has_key p ((q, _) ∷ rest) = eq_parent q p || has_key p rest

abbrev DistinctKeys : Groups → Type 0
DistinctKeys [] = Unit
DistinctKeys ((q, _) ∷ rest) = (has_key q rest ≡ false) × DistinctKeys rest

has_key-add :
    (p : Option String) (u : VillagePolicyUpdate) (g : Groups)
    → has_key p (add_child u g) ≡ (has_key p g || eq_parent u.previous_policy_hash p)
unfolding has_key add_child
has_key-add p u [] = ground arith
has_key-add p u ((q, cs) ∷ rest) =
    ground (arith, has_key-add p u rest, eq_parent_iff q u.previous_policy_hash)

add-DistinctKeys :
    (u : VillagePolicyUpdate) (g : Groups) → DistinctKeys g → DistinctKeys (add_child u g)
unfolding has_key add_child
add-DistinctKeys u [] d = (refl, tt)
add-DistinctKeys u ((q, cs) ∷ rest) d = elim (Bool-cases (eq_parent q u.previous_policy_hash)) [
  | inl e ↦ rw e d
  | inr e ↦ rw e (
    ground (
      arith,
      has_key-add q u rest,
      d.0,
      eq_parent_iff q u.previous_policy_hash,
      eq_parent_iff u.previous_policy_hash q,
    ),
    add-DistinctKeys u rest d.1,
  )
]

group-DistinctKeys :
    (g : Groups) (us : List VillagePolicyUpdate) → DistinctKeys g → DistinctKeys (group g us)
unfolding group
group-DistinctKeys g [] d = d
group-DistinctKeys g (u ∷ us) d = group-DistinctKeys (add_child u g) us (add-DistinctKeys u g d)

pub contains-add_iff :
    (h k : String) (xs : List String) → contains h (add k xs) ≡ (contains h xs || k == h)
unfolding contains add
contains-add_iff h k xs = ground (arith, contains-append h xs (k ∷ []), eq_iff k h)

hash_set-snoc :
    (h : String) (xs : List VillagePolicyUpdate) (u : VillagePolicyUpdate)
    → contains h (hash_set (xs ++ (u ∷ []))) ≡ (contains h (hash_set xs) || u.policy_hash == h)
unfolding hash_set
hash_set-snoc h [] u = contains-add_iff h u.policy_hash []
hash_set-snoc h (x ∷ xs) u =
    rw
      (
        contains-add_iff h x.policy_hash (hash_set xs),
        contains-add_iff h x.policy_hash (hash_set (xs ++ (u ∷ []))),
      )
      (ground (arith, hash_set-snoc h xs u))

pub hash_set-Distinct : (us : List VillagePolicyUpdate) → Distinct (hash_set us)
unfolding hash_set
hash_set-Distinct [] = tt
hash_set-Distinct (u ∷ us) = add-Distinct u.policy_hash (hash_set us) (hash_set-Distinct us)

lookup-add :
    (h p : String) (u : VillagePolicyUpdate) (g : Groups)
    → contains h (hash_set (lookup (some p) (add_child u g))) ≡ (
        contains h (hash_set (lookup (some p) g))
        || (eq_parent u.previous_policy_hash (some p) && u.policy_hash == h))
unfolding lookup add_child hash_set contains
lookup-add h p u [] = elim (Bool-cases (eq_parent u.previous_policy_hash (some p))) [
  | inl e ↦ rw e (contains-add_iff h u.policy_hash [])
  | inr e ↦ rw e refl
]
lookup-add h p u ((q, cs) ∷ rest) = ground (
  arith,
  lookup-add h p u rest,
  hash_set-snoc h cs u,
  eq_parent_iff q u.previous_policy_hash,
  eq_parent_iff q (some p),
  eq_parent_iff u.previous_policy_hash (some p),
)

lookup-group :
    (h p : String) (g : Groups) (us : List VillagePolicyUpdate)
    → contains h (hash_set (lookup (some p) (group g us)))
      ≡ (contains h (hash_set (lookup (some p) g)) || is_child p h us)
unfolding group is_child
lookup-group h p g [] = ground arith
lookup-group h p g (u ∷ us) =
    ground (arith, lookup-group h p (add_child u g) us, lookup-add h p u g)

-- A set has one element at most exactly when its elements are equal.
length-le_one_iff :
    (xs : List String)
    → Distinct xs
    → (ltb 1 (length xs) ≡ false)
      ↔ ((a b : String) → contains a xs ≡ true → contains b xs ≡ true → a ≡ b)
unfolding contains
length-le_one_iff [] d = (λ _ a b v w. cc, λ _. refl)
length-le_one_iff (x ∷ []) d = (λ _ a b v w. ground (arith, eq_iff x a, eq_iff x b), λ _. refl)
length-le_one_iff (x ∷ y ∷ xs) d =
    (λ e. ground arith, λ f. ground (arith, f x y, eq_refl x, eq_refl y, eq_iff y x))

lookup-absent : (p : Option String) (g : Groups) → has_key p g ≡ false → lookup p g ≡ []
unfolding has_key lookup
lookup-absent p [] h = refl
lookup-absent p ((q, cs) ∷ rest) h = ground (arith, lookup-absent p rest)

module _ (C : Crypto) where
  forks_of_iff :
      (g : Groups)
      → DistinctKeys g
      → (forks_of C g ≡ []) ↔ ((p : String) → ltb 1 (length (hash_set (lookup (some p) g))) ≡ false)
  unfolding forks_of lookup hash_set
  forks_of_iff [] d = (λ _ p. refl, λ _. refl)
  forks_of_iff ((none, cs) ∷ rest) d = forks_of_iff rest d.1
  forks_of_iff ((some q, cs) ∷ rest) d =
      let (to, from) = forks_of_iff rest d.1 in
      elim (Bool-cases (ltb 1 (length (hash_set cs)))) [
        | inl many ↦ rw many (λ e. cc, λ f. cc (f q, eq_refl q))
        | inr one ↦ rw one (
          λ e p. elim (Bool-cases (q == p)) [
            | inl same ↦ rw same one
            | inr other ↦ rw other (to e p)
          ],
          λ f. from (λ p. elim (Bool-cases (q == p)) [
            | inl same ↦
                rw
                  (lookup-absent (some p) rest
                    (subst (λ x. has_key (some x) rest ≡ false) ((eq_iff q p).0 same) d.0))
                  refl
            | inr other ↦ rw other at (f p)
          ]),
        )
      ]

  -- No fork is reported exactly when any two updates with one parent have one hash.
  pub detect_forks_iff : (ups : List VillagePolicyUpdate) → (detect_forks C ups ≡ []) ↔ NoFork ups
  unfolding detect_forks lookup hash_set contains
  detect_forks_iff ups =
      let (to, from) = forks_of_iff (group [] ups) (group-DistinctKeys [] ups tt) in
      let one_iff = λ (p : String).
        length-le_one_iff (hash_set (lookup (some p) (group [] ups)))
          (hash_set-Distinct (lookup (some p) (group [] ups))) in
      (
        λ e p a b v w.
            (one_iff p).0 (to e p) a b (lookup-group a p [] ups ∙ v) (lookup-group b p [] ups ∙ w),
        λ f. from (λ p. (one_iff p).1 (λ a b v w.
            f p a b (sym (lookup-group a p [] ups) ∙ v) (sym (lookup-group b p [] ups) ∙ w))),
      )
