-- ===== src/Feed/Merkle/Binding.antt =====
-- What a Merkle root of links/policy_feed.py says of the list that it was made of.
use policy_mesh.Feed.Merkle.{first, merkle_root, reduce, pair_up}
use policy_mesh.Prelude.{
  ◌∙◌, ltb, sym, Bool-cases, length-append, zero, ◌/◌, suc, ◌+◌, ◌<◌, ◌≤◌, ap, inr, refl, arith,
  inl, [], ℕ_discrete, All, ◌++◌, ◌∷◌, ◌⊎◌, ◌≡◌, length, ◌≢◌, ℕ, List,
}

-- Two different texts with one digest.
abbrev pub Collision : (List ℕ → List ℕ) → Type 0
Collision sha256 = (a b : List ℕ) × (a ≢ b) × (sha256 a ≡ sha256 b)

pub append-injective :
    (a b c d : List ℕ) → length a ≡ length c → a ++ b ≡ c ++ d → (a ≡ c) × (b ≡ d)
append-injective [] b [] d n e = (refl, e)
append-injective [] b (y ∷ c) d n e = absurd (omega arith)
append-injective (x ∷ a) b [] d n e = absurd (omega arith)
append-injective (x ∷ a) b (y ∷ c) d n e =
    let (h, t) = append-injective a b c d (omega arith) (ground arith) in (ground (arith, h), t)

module _ (sha256 : List ℕ → List ℕ) where
  length-pair_up : (xs : List (List ℕ)) → length (pair_up sha256 xs) ≡ (length xs + 1) / 2
  unfolding pair_up
  length-pair_up [] = omega arith
  length-pair_up (x ∷ []) = omega arith
  length-pair_up (x ∷ y ∷ xs) = omega (arith, length-pair_up xs)

  length-reduce :
      (fuel : ℕ) (xs : List (List ℕ))
      → 0 < length xs
      → length xs ≤ fuel + 1
      → length (reduce sha256 fuel xs) ≡ 1
  unfolding reduce
  length-reduce zero xs h k = omega arith
  length-reduce (suc fuel) xs h k =
      ground (arith, length-pair_up xs, length-reduce fuel (pair_up sha256 xs))

  -- More fuel than items changes nothing.
  reduce-suc :
      (fuel : ℕ) (xs : List (List ℕ))
      → length xs ≤ fuel + 1
      → reduce sha256 (suc fuel) xs ≡ reduce sha256 fuel xs
  unfolding reduce
  reduce-suc zero xs h = ground arith
  reduce-suc (suc fuel) xs h =
      ground (arith, length-pair_up xs, reduce-suc fuel (pair_up sha256 xs))

-- Every entry has this many bytes.
abbrev pub Digests : ℕ → List (List ℕ) → Type 0
Digests width = All (λ h. length h ≡ width)

module _ (sha256 : List ℕ → List ℕ) (width : ℕ)
    (fixed : (m : List ℕ) → length (sha256 m) ≡ width) where
  pair_up-Digests : (xs : List (List ℕ)) → Digests width (pair_up sha256 xs)
  unfolding pair_up
  pair_up-Digests [] = tt
  pair_up-Digests (x ∷ []) = (fixed (x ++ x), tt)
  pair_up-Digests (x ∷ y ∷ xs) = (fixed (x ++ y), pair_up-Digests xs)

  pub same_digest : (a b : List ℕ) → sha256 a ≡ sha256 b → (a ≡ b) ⊎ Collision sha256
  same_digest a b e = elim (list_discrete a b) [ yes p ↦ inl p | no p ↦ inr (a, b, p, e) ]
    where
      list_discrete : Discrete (List ℕ)
      list_discrete = hlevel ℕ_discrete

  pair_up-Binding :
      (xs ys : List (List ℕ))
      → Digests width xs
      → Digests width ys
      → length xs ≡ length ys
      → pair_up sha256 xs ≡ pair_up sha256 ys
      → (xs ≡ ys) ⊎ Collision sha256
  unfolding pair_up
  pair_up-Binding [] [] dx dy n e = inl refl
  pair_up-Binding [] (y ∷ ys) dx dy n e = absurd (omega arith)
  pair_up-Binding (x ∷ xs) [] dx dy n e = absurd (omega arith)
  pair_up-Binding (x ∷ []) (y ∷ []) dx dy n e =
      elim (same_digest (x ++ x) (y ++ y) (ground arith)) [
        | inl p ↦ inl (ap (λ z. z ∷ []) (append-injective x x y y (omega arith) p).0)
        | inr c ↦ inr c
      ]
  pair_up-Binding (x ∷ []) (y ∷ y' ∷ ys) dx dy n e = absurd (omega arith)
  pair_up-Binding (x ∷ x' ∷ xs) (y ∷ []) dx dy n e = absurd (omega arith)
  pair_up-Binding (x ∷ x' ∷ xs) (y ∷ y' ∷ ys) dx dy n e =
      elim (same_digest (x ++ x') (y ++ y') (ground arith)) [
        | inr c ↦ inr c
        | inl p ↦ elim (pair_up-Binding xs ys dx.1.1 dy.1.1 (omega arith) (ground arith)) [
          | inr c ↦ inr c
          | inl q ↦
              let (h, t) = append-injective x x' y y' (omega arith) p in
              inl (ground (arith, h, t, q))
        ]
      ]

  length-pair_up-eq :
      (xs ys : List (List ℕ))
      → length xs ≡ length ys
      → length (pair_up sha256 xs) ≡ length (pair_up sha256 ys)
  length-pair_up-eq xs ys n = omega (arith, length-pair_up sha256 xs, length-pair_up sha256 ys)

  reduce-Binding :
      (fuel : ℕ) (xs ys : List (List ℕ))
      → Digests width xs
      → Digests width ys
      → length xs ≡ length ys
      → reduce sha256 fuel xs ≡ reduce sha256 fuel ys
      → (xs ≡ ys) ⊎ Collision sha256
  unfolding reduce
  reduce-Binding zero xs ys dx dy n e = inl e
  reduce-Binding (suc fuel) xs ys dx dy n e = elim (Bool-cases (ltb 1 (length xs))) [
    | inr small ↦ inl (ground arith)
    | inl big ↦
        elim (reduce-Binding fuel (pair_up sha256 xs) (pair_up sha256 ys) (pair_up-Digests xs)
          (pair_up-Digests ys) (length-pair_up-eq xs ys n) (ground arith)) [
            | inl p ↦ pair_up-Binding xs ys dx dy n p
            | inr c ↦ inr c
          ]
  ]

first-injective :
    (sha256 : List ℕ → List ℕ) (xs ys : List (List ℕ))
    → length xs ≡ 1
    → length ys ≡ 1
    → first sha256 xs ≡ first sha256 ys
    → xs ≡ ys
unfolding first
first-injective sha256 [] ys n m e = absurd (omega arith)
first-injective sha256 (x ∷ []) [] n m e = absurd (omega arith)
first-injective sha256 (x ∷ []) (y ∷ []) n m e = ap (λ z. z ∷ []) e
first-injective sha256 (x ∷ []) (y ∷ y' ∷ ys) n m e = absurd (omega arith)
first-injective sha256 (x ∷ x' ∷ xs) ys n m e = absurd (omega arith)

-- With digests of one width, two lists of digests of one length that have the same Merkle root are
-- equal, or show two texts with one SHA-256 digest.
pub merkle_root-Binding :
    (sha256 : List ℕ → List ℕ) (width : ℕ) (xs ys : List (List ℕ))
    → ((m : List ℕ) → length (sha256 m) ≡ width)
    → Digests width xs
    → Digests width ys
    → length xs ≡ length ys
    → merkle_root sha256 xs ≡ merkle_root sha256 ys
    → (xs ≡ ys) ⊎ Collision sha256
unfolding merkle_root
merkle_root-Binding sha256 width [] [] fixed dx dy n e = inl refl
merkle_root-Binding sha256 width [] (y ∷ ys) fixed dx dy n e = absurd (omega arith)
merkle_root-Binding sha256 width (x ∷ xs) ys fixed dx dy n e =
    let f : ℕ = length (x ∷ xs) in
    reduce-Binding sha256 width fixed f (x ∷ xs) ys dx dy n (
      first-injective sha256 _ _ (length-reduce sha256 f (x ∷ xs) (omega arith) (omega arith))
        (length-reduce sha256 f ys (omega arith) (omega arith)) (rw (← n) at e))

abbrev pub IsEven : List (List ℕ) → Type 0
IsEven [] = Unit
IsEven (x ∷ []) = ⊥
IsEven (x ∷ y ∷ xs) = IsEven xs

pair_up_twice :
    (sha256 : List ℕ → List ℕ) (xs : List (List ℕ)) (x : List ℕ)
    → IsEven xs
    → pair_up sha256 (xs ++ (x ∷ [])) ≡ pair_up sha256 (xs ++ (x ∷ x ∷ []))
unfolding pair_up
pair_up_twice sha256 [] x v = refl
pair_up_twice sha256 (a ∷ []) x v = absurd v
pair_up_twice sha256 (a ∷ b ∷ xs) x v = ap (◌∷◌ (sha256 (a ++ b))) (pair_up_twice sha256 xs x v)

reduce_once :
    (sha256 : List ℕ → List ℕ) (fuel : ℕ) (xs ys : List (List ℕ))
    → pair_up sha256 xs ≡ pair_up sha256 ys
    → 1 < length xs
    → 1 < length ys
    → reduce sha256 (suc fuel) xs ≡ reduce sha256 (suc fuel) ys
unfolding reduce
reduce_once sha256 fuel xs ys e h k = ground arith

-- A list of three items or more, odd in number, has the Merkle root of the list that repeats its
-- last item: the root alone does not bind the number of items.
pub merkle_root_repeated :
    (sha256 : List ℕ → List ℕ) (a b : List ℕ) (xs : List (List ℕ)) (x : List ℕ)
    → IsEven xs
    → merkle_root sha256 (a ∷ b ∷ xs ++ (x ∷ [])) ≡ merkle_root sha256 (a ∷ b ∷ xs ++ (x ∷ x ∷ []))
unfolding merkle_root
merkle_root_repeated sha256 a b xs x v =
    let l = a ∷ b ∷ xs ++ (x ∷ []) in
    let m = a ∷ b ∷ xs ++ (x ∷ x ∷ []) in
    let e : pair_up sha256 l ≡ pair_up sha256 m = pair_up_twice sha256 (a ∷ b ∷ xs) x v in
    let n : length m ≡ suc (length l) =
      omega (arith, length-append xs (x ∷ []), length-append xs (x ∷ x ∷ [])) in
    ap (first sha256) (
      sym (reduce-suc sha256 (length l) l (omega arith))
      ∙ reduce_once sha256 (length l) l m e (omega arith) (omega arith)
      ∙ ap (λ f. reduce sha256 f m) (sym n))
