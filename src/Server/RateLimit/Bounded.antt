-- ===== src/Server/RateLimit/Bounded.antt =====
-- links/server.py: what a client gets through in one minute.
use policy_mesh.Server.RateLimit.Counted.{
  served, started, Served, same_slot, tally, Reached, hit-Reached,
}
use policy_mesh.Server.RateLimit.{Bucket, Hit, allowance}
use policy_mesh.Prelude.{
  ap, ltb, ◌∙◌, inr, inl, Bool-cases, eq_iff, arith, [], nat_eq, ◌+◌, ◌||◌, not, ◌&&◌,
  if◌then◌else◌, true, Bool, ◌∷◌, ◌≡◌, ℕ, List, String,
}
use Prim.Native.Nat.{min}

-- The requests of the key in the minute that went on.
unfoldable pub let_through : String → String → ℕ → List Served → ℕ
let_through v c m [] = 0
let_through v c m (s ∷ ss) =
    let earlier = let_through v c m ss in
    if same_slot v c m s.request && s.went_on then earlier + 1 else earlier

-- Each request of the key in the minute found the same limit.
unfoldable pub one_allowance : String → String → ℕ → ℕ → List Served → Bool
one_allowance v c m n [] = true
one_allowance v c m n (s ∷ ss) =
    (not (same_slot v c m s.request) || nat_eq (allowance s.request.limit) n)
    && one_allowance v c m n ss

tally_slot :
    (v c : String) (m : ℕ) (h : Hit) (ss : List Served)
    → same_slot v c m h ≡ true
    → tally h.village_id h.client_key h.minute ss ≡ tally v c m ss
tally_slot v c m h ss e = ground (arith, e, eq_iff h.village_id v, eq_iff h.client_key c)

capped :
    (w : Bool) (n e t : ℕ) → w ≡ ltb t n → e ≡ min n t → (if w then e + 1 else e) ≡ min n (t + 1)
capped w n e t h k = ground (arith, h, k)

and_elim : (a b : Bool) → a && b ≡ true → (a ≡ true) × (b ≡ true)
and_elim a b h = ground (arith, h)

found_allowance : (s : Bool) (a n : ℕ) → s ≡ true → (not s || nat_eq a n) ≡ true → a ≡ n
found_allowance s a n e h = ground (arith, e, h)

-- While the village's limit stays the same, with a clock that does not go back, exactly so many of the
-- requests of a client in a minute go on as the limit allows, or all of them where they are fewer.
pub let_through-Reached :
    {bs : List Bucket} {ss : List Served} {now : ℕ} (v c : String) (m n : ℕ)
    → Reached bs ss now
    → one_allowance v c m n ss ≡ true
    → let_through v c m ss ≡ min n (tally v c m ss)
unfolding let_through one_allowance tally
let_through-Reached v c m n (started now) o = omega arith
let_through-Reached {ss = (_ ∷ ss)} v c m n (served h r l) o =
    let (one, others) = and_elim (not (same_slot v c m h) || nat_eq (allowance h.limit) n) _ o in
    let ih = let_through-Reached v c m n r others in
    elim (Bool-cases (same_slot v c m h)) [
      | inl e ↦ rw e (
          capped _ n _ _
            (hit-Reached h r l
              ∙ ap (λ k. ltb k (allowance h.limit)) (tally_slot v c m h ss e)
              ∙ ap (ltb (tally v c m ss)) (found_allowance _ _ n e one))
            ih)
      | inr e ↦ rw e ih
    ]
