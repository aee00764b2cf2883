-- ===== src/Update/Roles/Counts.antt =====
-- The counts of the roles, through the code's dict.
use policy_mesh.Prelude.{
  inr, inl, All, Bool-cases, ◌||◌, ◌++◌, refl, [], eq_iff, ◌∙◌, arith, true, ◌+◌, ◌==◌,
  if◌then◌else◌, ◌≡◌, ◌∷◌, ℕ, String, List,
}
use policy_mesh.Update.Roles.{
  start_from, role_count, roles_of, Counts, count_role, count_roles, has_role,
}
use policy_mesh.Update.{QuorumRequirement}

module _ (roles : List (String × List String)) where
  -- How often the role is among the roles of the keys.
  unfoldable pub occurrences : String → List String → ℕ
  occurrences role [] = 0
  occurrences role (r ∷ rs) = (if r == role then 1 else 0) + occurrences role rs

  unfoldable pub holders : String → List String → ℕ
  unfolding occurrences
  holders role [] = 0
  holders role (k ∷ ks) = occurrences role (roles_of roles k) + holders role ks

  has-count_role :
      (role r : String) (counts : Counts)
      → has_role role (count_role r counts) ≡ has_role role counts
  unfolding has_role count_role
  has-count_role role r [] = refl
  has-count_role role r ((s, n) ∷ rest) = ground (arith, has-count_role role r rest)

  role_count_lem :
      (role r : String) (counts : Counts)
      → has_role role counts ≡ true
      → role_count role (count_role r counts)
        ≡ role_count role counts + (if r == role then 1 else 0)
  unfolding has_role count_role role_count
  role_count_lem role r [] h = cc
  role_count_lem role r ((s, n) ∷ rest) h =
      ground (arith, role_count_lem role r rest, h, eq_iff s r, eq_iff s role, eq_iff r role)

  role_counts_lem :
      (role : String) (rs : List String) (counts : Counts)
      → has_role role counts ≡ true
      → (role_count role (count_roles rs counts) ≡ role_count role counts + occurrences role rs)
        × (has_role role (count_roles rs counts) ≡ true)
  unfolding count_roles occurrences
  role_counts_lem role [] counts h = (omega arith, h)
  role_counts_lem role (r ∷ rs) counts h =
      let (count, still) =
        role_counts_lem role rs (count_role r counts) (has-count_role role r counts ∙ h) in
      (omega (arith, count, role_count_lem role r counts h), still)

  -- The counts after the roles of the keys are counted in turn.
  unfoldable pub credit : Counts → List String → Counts
  credit counts [] = counts
  credit counts (k ∷ ks) = credit (count_roles (roles_of roles k) counts) ks

  pub credit-snoc :
      (counts : Counts) (ks : List String) (k : String)
      → credit counts (ks ++ (k ∷ [])) ≡ count_roles (roles_of roles k) (credit counts ks)
  unfolding credit
  credit-snoc counts [] k = refl
  credit-snoc counts (j ∷ ks) k = credit-snoc (count_roles (roles_of roles j) counts) ks k

  pub role_count-credit :
      (role : String) (ks : List String) (counts : Counts)
      → has_role role counts ≡ true
      → role_count role (credit counts ks) ≡ role_count role counts + holders role ks
  unfolding credit holders
  role_count-credit role [] counts h = omega arith
  role_count-credit role (k ∷ ks) counts h =
      let (count, still) = role_counts_lem role (roles_of roles k) counts h in
      omega (arith, count, role_count-credit role ks (count_roles (roles_of roles k) counts) still)

has_role-append :
    (role : String) (xs ys : Counts)
    → has_role role (xs ++ ys) ≡ (has_role role xs || has_role role ys)
unfolding has_role
has_role-append role [] ys = refl
has_role-append role ((r, n) ∷ xs) ys = ground (arith, has_role-append role xs ys)

-- Every count is nought.
abbrev pub AllNought : Counts → Type 0
AllNought counts = (role : String) → role_count role counts ≡ 0

append-AllNought :
    (counts : Counts) (r role : String)
    → role_count role counts ≡ 0
    → role_count role (counts ++ ((r, 0) ∷ [])) ≡ 0
unfolding role_count
append-AllNought [] r role h = ground arith
append-AllNought ((s, n) ∷ rest) r role h = ground (arith, append-AllNought rest r role, h)

pub start-AllNought :
    (rs : List QuorumRequirement) (counts : Counts)
    → AllNought counts
    → AllNought (start_from counts rs)
unfolding start_from
start-AllNought [] counts h = h
start-AllNought (r ∷ rs) counts h = elim (Bool-cases (has_role r.role counts)) [
  | inl old ↦ rw old (start-AllNought rs counts h)
  | inr new ↦ rw new (
      start-AllNought rs (counts ++ ((r.role, 0) ∷ []))
        (λ role. append-AllNought counts r.role role (h role)))
]

start_keeps :
    (role : String) (rs : List QuorumRequirement) (counts : Counts)
    → has_role role counts ≡ true
    → has_role role (start_from counts rs) ≡ true
unfolding start_from
start_keeps role [] counts h = h
start_keeps role (r ∷ rs) counts h = elim (Bool-cases (has_role r.role counts)) [
  | inl old ↦ rw old (start_keeps role rs counts h)
  | inr new ↦ rw new (
      start_keeps role rs (counts ++ ((r.role, 0) ∷ []))
        (ground (arith, has_role-append role counts ((r.role, 0) ∷ []), h)))
]

has-next :
    (role : String) (counts : Counts)
    → has_role role (if has_role role counts then counts else counts ++ ((role, 0) ∷ [])) ≡ true
unfolding has_role
has-next role counts =
    ground (arith, has_role-append role counts ((role, 0) ∷ []), eq_iff role role)

-- The dict has every role that is required.
pub start-All :
    (rs : List QuorumRequirement) (counts : Counts)
    → All (λ r. has_role r.role (start_from counts rs) ≡ true) rs
unfolding start_from
start-All [] counts = tt
start-All (r ∷ rs) counts =
    let next : Counts = if has_role r.role counts then counts else counts ++ ((r.role, 0) ∷ []) in
    (start_keeps r.role rs next (has-next r.role counts), start-All rs next)
