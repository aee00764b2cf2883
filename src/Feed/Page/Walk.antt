-- ===== src/Feed/Page/Walk.antt =====
-- What a client gets that follows the cursors of links/policy_feed.py.
use policy_mesh.Feed.Page.{pos, clamp_limit, index_after, start_index, paginate_updates, last_hash}
use policy_mesh.Prelude.{
  take_of_length-le, append-nil, inr, take-append-drop, ltb→lt, inl, ltb, Bool-cases, refl, none,
  ◌-◌, ◌∙◌, get_elem?-drop, sym, length-drop, get_last?-take, eq_iff, take, get_last?, true, truthy,
  zero, ◌++◌, ◌∷◌, drop, length-take, some, suc, [], arith, length, ◌+◌, ◌≡◌, ◌≢◌, All, Distinct,
  Option, String, get_elem?, ◌≤◌, ◌<◌, List, contains, ℕ,
}
use policy_mesh.Prelude.Int.{ℤ}
use policy_mesh.Update.{policy_hashes, VillagePolicyUpdate}

-- The client of the feed: it asks for a page, keeps the items, and goes on from the next cursor.
unfoldable pub walk : ℕ → List VillagePolicyUpdate → ℤ → Option String → List VillagePolicyUpdate
walk zero ups limit cursor = []
walk (suc fuel) ups limit cursor =
    let (items, next) = paginate_updates ups cursor limit in
    items ++ (elim next [ none ↦ [] | some h ↦ walk fuel ups limit (some h) ])

clamp_bounds : (limit : ℤ) → (0 < clamp_limit limit) × (clamp_limit limit ≤ 500)
unfolding clamp_limit
clamp_bounds limit = ground arith

-- A page has 500 items at most.
pub page_bounded :
    (ups : List VillagePolicyUpdate) (cursor : Option String) (limit : ℤ)
    → length (paginate_updates ups cursor limit).0 ≤ 500
unfolding paginate_updates
page_bounded ups cursor limit =
    omega (
      arith,
      clamp_bounds limit,
      length-take (clamp_limit limit) (drop (start_index ups cursor) ups),
    )

contains-get_elem? :
    (ups : List VillagePolicyUpdate) (j : ℕ) (u : VillagePolicyUpdate)
    → get_elem? ups j ≡ some u
    → contains u.policy_hash (policy_hashes ups) ≡ true
unfolding contains
contains-get_elem? [] j u h = cc
contains-get_elem? (x ∷ ups) zero u h = ground (arith, eq_iff x.policy_hash u.policy_hash)
contains-get_elem? (x ∷ ups) (suc j) u h = ground (arith, contains-get_elem? ups j u h)

index_after-get_elem? :
    (i : ℕ) (ups : List VillagePolicyUpdate) (j : ℕ) (u : VillagePolicyUpdate)
    → Distinct (policy_hashes ups)
    → get_elem? ups j ≡ some u
    → index_after i u.policy_hash ups ≡ i + j + 1
unfolding index_after
index_after-get_elem? i [] j u d h = cc
index_after-get_elem? i (x ∷ ups) zero u d h = ground (arith, eq_iff x.policy_hash u.policy_hash)
index_after-get_elem? i (x ∷ ups) (suc j) u d h = ground (
  arith,
  contains-get_elem? ups j u h,
  eq_iff x.policy_hash u.policy_hash,
  index_after-get_elem? (i + 1) ups j u d.1 h,
)

-- No hash is the empty text.
abbrev pub Hashed : List VillagePolicyUpdate → Type 0
Hashed = All (λ u. u.policy_hash ≢ "")

truthy-get_elem? :
    (ups : List VillagePolicyUpdate) (j : ℕ) (u : VillagePolicyUpdate)
    → Hashed ups
    → get_elem? ups j ≡ some u
    → truthy u.policy_hash ≡ true
truthy-get_elem? [] j u n h = cc
truthy-get_elem? (x ∷ ups) zero u n h = ground (arith, eq_iff u.policy_hash "")
truthy-get_elem? (x ∷ ups) (suc j) u n h = truthy-get_elem? ups j u n.1 h

module _ (ups : List VillagePolicyUpdate) (limit : ℤ) (n : Hashed ups)
    (d : Distinct (policy_hashes ups)) where
  -- The cursor of a page that is not the last one leads to the next page.
  next_cursor :
      (k m : ℕ)
      → k + suc m < length ups
      → (h : String) × (last_hash (get_last? (take (suc m) (drop k ups))) ≡ some h)
        × (start_index ups (some h) ≡ k + suc m)
  unfolding last_hash start_index
  next_cursor k m lt =
      let (u, at, last) = get_last?-take m (drop k ups) (omega (arith, length-drop {0} k ups)) in
      let at' : get_elem? ups (k + m) ≡ some u = sym (get_elem?-drop k m ups) ∙ at in
      (
        u.policy_hash,
        rw last,
        rw (truthy-get_elem? ups (k + m) u n at')
            (omega (arith, index_after-get_elem? 0 ups (k + m) u d at')),
      )

  walk_from :
      (fuel k : ℕ) (cursor : Option String)
      → start_index ups cursor ≡ k
      → length ups < k + fuel
      → k ≤ length ups
      → walk fuel ups limit cursor ≡ drop k ups
  unfolding walk paginate_updates
  walk_from zero k cursor e f b = absurd (omega arith)
  walk_from (suc fuel) k cursor e f b =
      let m : ℕ = clamp_limit limit - 1 in
      let size : clamp_limit limit ≡ suc m = omega (arith, clamp_bounds limit) in
      elim (Bool-cases (ltb (k + suc m) (length ups))) [
        | inl more ↦
            let (h, last, start) = next_cursor k m (ltb→lt _ _ more) in
            rw
              (
                e,
                size,
                more,
                last,
                walk_from fuel (k + suc m) (some h) start (omega arith)
                    (omega (arith, ltb→lt _ _ more)),
              )
              (take-append-drop (suc m) k ups)
        | inr end ↦
            rw (e, size, end, append-nil)
              (take_of_length-le (suc m) (drop k ups) (ground (arith, length-drop {0} k ups)))
      ]

-- If no two updates have one policy hash and none has an empty one, a client that starts without a
-- cursor and follows the cursors gets every update, once and in order, whatever the limit, in one
-- request more than there are updates at most.
pub walk_complete :
    (ups : List VillagePolicyUpdate) (limit : ℤ)
    → Hashed ups
    → Distinct (policy_hashes ups)
    → walk (length ups + 1) ups limit none ≡ ups
unfolding start_index
walk_complete ups limit n d =
    walk_from ups limit n d (length ups + 1) 0 none refl (omega arith) (omega arith)

-- Two neighbours with one policy hash stop the client of a feed with pages of one item: the cursor
-- of the first leads to the second, and the cursor of that page leads to the same page again.
pub page_repeats :
    (x y z : VillagePolicyUpdate) (ups : List VillagePolicyUpdate)
    → x.policy_hash ≢ ""
    → x.policy_hash ≡ y.policy_hash
    → paginate_updates (x ∷ y ∷ z ∷ ups) (some y.policy_hash) (pos 1) ≡ (y ∷ [], some y.policy_hash)
unfolding paginate_updates
page_repeats x y z ups n e =
    ground (arith, eq_iff x.policy_hash y.policy_hash, eq_iff y.policy_hash "")
