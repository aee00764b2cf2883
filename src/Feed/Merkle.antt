-- ===== src/Feed/Merkle.antt =====
-- links/policy_feed.py: `_merkle_root`, over the digests as bytes. `bytes.fromhex` and `hex` are
-- left to the caller.
pub mod Binding
use policy_mesh.Prelude.{zero, ltb, [], if◌then◌else◌, ◌++◌, length, suc, ◌∷◌, ℕ, List}

-- `hashlib.sha256(...).digest()`
module _ (sha256 : List ℕ → List ℕ) where
  -- One round: neighbours are hashed together, and a last one alone with itself.
  unfoldable pub pair_up : List (List ℕ) → List (List ℕ)
  pair_up [] = []
  pair_up (left ∷ []) = sha256 (left ++ left) ∷ []
  pair_up (left ∷ right ∷ layer) = sha256 (left ++ right) ∷ pair_up layer

  -- `while len(layer) > 1`
  unfoldable pub reduce : ℕ → List (List ℕ) → List (List ℕ)
  unfolding pair_up
  reduce zero layer = layer
  reduce (suc fuel) layer =
      let more = reduce fuel (pair_up layer) in if ltb 1 (length layer) then more else layer

  first : List (List ℕ) → List ℕ
  first [] = sha256 []
  first (h ∷ layer) = h

  unfoldable pub merkle_root : List (List ℕ) → List ℕ
  unfolding reduce first
  merkle_root items = first (reduce (length items) items)
