-- ===== src/Tests/Feed.antt =====
-- Tests of links/policy_feed.py.
use policy_mesh.Prelude.{
  codes_le, codes, refl, text_le, true, ◌≢◌, [], add, eq_iff, false, if◌then◌else◌, none, ◌≤◌,
  Distinct, arith, some, ℕ, ◌==◌, ◌∷◌, ◌⊎◌, All, List, String, contains, length, ◌≡◌,
}
use policy_mesh.Feed.Page.Walk.{walk_complete, Hashed, walk}
use policy_mesh.Feed.Gaps.Complete.{fill-Ended, fill-reported, reported, Ended}
use policy_mesh.Feed.Gaps.{start, rounds, loop, Fetch, fill_history_gaps}
use policy_mesh.Feed.Gaps.Invariant.{Honest}
use policy_mesh.Prelude.Int.{pos}
use policy_mesh.Update.{policy_hashes, VillagePolicyUpdate}
use policy_mesh.Tests.Samples.{update_at}
use policy_mesh.Feed.Order.{sort}
use policy_mesh.Feed.Merkle.Binding.{merkle_root-Binding, Collision}

abbrev three : List VillagePolicyUpdate
three = update_at "a" none 1 ∷ update_at "b" (some "a") 2 ∷ update_at "c" (some "b") 3 ∷ []

text-ne : (a b : String) → (a == b) ≡ false → a ≢ b
text-ne a b h e = cc ((eq_iff a b).1 e)

hashed : Hashed three
hashed = (text-ne _ _ refl, (text-ne _ _ refl, (text-ne _ _ refl, tt)))

distinct : Distinct (policy_hashes three)
unfolding contains
distinct = (refl, (refl, (refl, tt)))

walk_complete_example : walk 4 three (pos 1) none ≡ three
walk_complete_example = walk_complete three (pos 1) hashed distinct

abbrev newest : List VillagePolicyUpdate
newest = update_at "c" (some "b") 3 ∷ []

-- The peer has "b" and not "a".
abbrev peer : Fetch
peer = some (λ h. if h == "b" then some (update_at "b" (some "a") 2) else none)

filled : fill_history_gaps newest [] peer 500 ≡ record {
  combined = update_at "b" (some "a") 2 ∷ newest;
  fetched = "b" ∷ [];
  unresolved = "a" ∷ [];
}
unfolding fill_history_gaps sort contains add text_le codes codes_le
filled = refl

peer-Honest : Honest peer
peer-Honest h u e = ground (arith, eq_iff h "b")

fill-reported_example :
    All
      (λ u. reported [] (fill_history_gaps newest [] peer 500) u.previous_policy_hash ≡ true)
      (fill_history_gaps newest [] peer 500).combined
fill-reported_example = fill-reported newest [] peer 500 peer-Honest

fill-Ended_example :
    Ended 500 (loop (rounds 500 (start newest [])) 500 peer (start newest []))
    × (length (fill_history_gaps newest [] peer 500).fetched ≤ 500)
fill-Ended_example = fill-Ended newest [] peer 500

-- A digest of one byte.
abbrev sum_digest : List ℕ → List ℕ
sum_digest [] = 7 ∷ []
sum_digest (n ∷ ns) = n ∷ []

sum_digest_width : (m : List ℕ) → length (sum_digest m) ≡ 1
sum_digest_width [] = refl
sum_digest_width (n ∷ ns) = refl

abbrev leaves : List (List ℕ)
leaves = (1 ∷ []) ∷ (2 ∷ []) ∷ (3 ∷ []) ∷ []

merkle_root-Binding_example : (leaves ≡ leaves) ⊎ Collision sum_digest
merkle_root-Binding_example =
    merkle_root-Binding sum_digest 1 leaves leaves sum_digest_width (omega arith) (omega arith) refl
      refl
