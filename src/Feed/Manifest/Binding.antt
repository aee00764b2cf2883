-- ===== src/Feed/Manifest/Binding.antt =====
-- What a manifest says of the feed that it was made of.
use policy_mesh.Feed.Manifest.{chain_start, chain, build_policy_feed_manifest}
use policy_mesh.Prelude.{
  length-map, ap, sym, ◌∙◌, refl, ◌++◌, arith, inr, inl, ◌∷◌, [], ◌⊎◌, map, ◌≡◌, length, String, ℕ,
  List,
}
use policy_mesh.Update.{compute_update_hash, VillagePolicyUpdate, Crypto}
use policy_mesh.Feed.Order.{sort}
use policy_mesh.Feed.Merkle.Binding.{append-injective, same_digest, Collision, Digests}

module _ (sha256 : List ℕ → List ℕ) (width : ℕ)
    (fixed : (m : List ℕ) → length (sha256 m) ≡ width) where
  -- With digests of one width, two lists of one length that have one running hash are equal, and so
  -- are the hashes that they started from, or two texts with one digest can be given.
  chain-Binding :
      (p q : List ℕ) (xs ys : List (List ℕ))
      → length p ≡ width
      → length q ≡ width
      → Digests width xs
      → Digests width ys
      → length xs ≡ length ys
      → chain sha256 p xs ≡ chain sha256 q ys
      → ((p ≡ q) × (xs ≡ ys)) ⊎ Collision sha256
  unfolding chain
  chain-Binding p q [] [] hp hq dx dy n e = inl (e, refl)
  chain-Binding p q [] (y ∷ ys) hp hq dx dy n e = absurd (omega arith)
  chain-Binding p q (x ∷ xs) [] hp hq dx dy n e = absurd (omega arith)
  chain-Binding p q (x ∷ xs) (y ∷ ys) hp hq dx dy n e =
      elim (chain-Binding (sha256 (p ++ x)) (sha256 (q ++ y)) xs ys (fixed (p ++ x))
        (fixed (q ++ y)) dx.1 dy.1 (omega arith) e) [
          | inr c ↦ inr c
          | inl (h, t) ↦ elim (same_digest sha256 width fixed (p ++ x) (q ++ y) h) [
            | inr c ↦ inr c
            | inl s ↦
                let (a, b) = append-injective p x q y (hp ∙ sym hq) s in
                inl (a, ap (λ z. z ∷ xs) b ∙ ap (λ zs. y ∷ zs) t)
          ]
        ]

-- The digests of the updates of a feed, in the feed's order.
abbrev pub digests : Crypto → (String → List ℕ) → List VillagePolicyUpdate → List (List ℕ)
digests C unhex stored = map (λ u. unhex (compute_update_hash C u)) (sort stored)

module _ (C : Crypto) (unhex : String → List ℕ)
    (wide : (u : VillagePolicyUpdate) → length (unhex (compute_update_hash C u)) ≡ 32) where
  map-Digests :
      (us : List VillagePolicyUpdate) → Digests 32 (map (λ u. unhex (compute_update_hash C u)) us)
  map-Digests [] = tt
  map-Digests (u ∷ us) = (wide u, map-Digests us)

-- Two manifests with one count and one chain head were made of the same digests in the same order,
-- or two texts with one digest can be given. Digests are 32 bytes wide, a hash that is read is a
-- digest, and the two running hashes are not written alike where they differ.
pub manifest-Binding :
    (C : Crypto) (sha256 : List ℕ → List ℕ) (hex : List ℕ → String) (unhex : String → List ℕ)
    (xs ys : List VillagePolicyUpdate) (v w : String) (t s : ℕ)
    → ((m : List ℕ) → length (sha256 m) ≡ 32)
    → ((u : VillagePolicyUpdate) → length (unhex (compute_update_hash C u)) ≡ 32)
    → (hex (chain sha256 chain_start (digests C unhex xs))
          ≡ hex (chain sha256 chain_start (digests C unhex ys))
        → chain sha256 chain_start (digests C unhex xs)
          ≡ chain sha256 chain_start (digests C unhex ys))
    → (build_policy_feed_manifest C sha256 hex unhex xs v t).count
      ≡ (build_policy_feed_manifest C sha256 hex unhex ys w s).count
    → (build_policy_feed_manifest C sha256 hex unhex xs v t).chain_head
      ≡ (build_policy_feed_manifest C sha256 hex unhex ys w s).chain_head
    → (digests C unhex xs ≡ digests C unhex ys) ⊎ Collision sha256
unfolding build_policy_feed_manifest
manifest-Binding C sha256 hex unhex xs ys v w t s fixed wide apart n e =
    elim (chain-Binding sha256 32 fixed chain_start chain_start (digests C unhex xs)
      (digests C unhex ys) refl refl (map-Digests C unhex wide (sort xs))
      (map-Digests C unhex wide (sort ys))
      (length-map (λ u. unhex (compute_update_hash C u)) (sort xs)
        ∙ n
        ∙ sym (length-map (λ u. unhex (compute_update_hash C u)) (sort ys)))
      (apart e)) [ inl h ↦ inl h.1 | inr c ↦ inr c ]
