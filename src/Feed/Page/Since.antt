-- ===== src/Feed/Page/Since.antt =====
-- The updates after a hash, links/policy_feed.py.
use policy_mesh.Feed.Page.{since_loop, filter_updates_since}
use policy_mesh.Prelude.{
  eq-false, eq_refl, refl, [], some, arith, ◌++◌, false, ◌∷◌, map, ◌≡◌, true, ◌≢◌, List, String,
  contains,
}
use policy_mesh.Update.{VillagePolicyUpdate}

since_all : (h : String) (ups : List VillagePolicyUpdate) → since_loop h true ups ≡ ups
unfolding since_loop
since_all h [] = refl
since_all h (u ∷ ups) = ground (arith, since_all h ups)

-- What follows the first update with the hash, where the hash is not empty.
pub since-append :
    (before : List VillagePolicyUpdate) (u : VillagePolicyUpdate) (after : List VillagePolicyUpdate)
    → u.policy_hash ≢ ""
    → contains u.policy_hash (map (λ v. v.policy_hash) before) ≡ false
    → filter_updates_since (before ++ (u ∷ after)) (some u.policy_hash) ≡ after
unfolding filter_updates_since contains
since-append before u after n absent = rw (eq-false u.policy_hash "" n) (go before absent)
  where
    go :
        (xs : List VillagePolicyUpdate)
        → contains u.policy_hash (map (λ v. v.policy_hash) xs) ≡ false
        → since_loop u.policy_hash false (xs ++ (u ∷ after)) ≡ after
    go [] a = rw eq_refl (since_all u.policy_hash after)
    go (x ∷ xs) a = ground (arith, go xs)
