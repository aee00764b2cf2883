-- ===== src/Server/RateLimit/Counted.antt =====
-- links/server.py: the limit of requests, over the history of what was asked.
use policy_mesh.Server.RateLimit.{
  allowance, clean_up, Bucket, Hit, has_key, count_at, set_bucket, fresh_buckets, hit,
}
use policy_mesh.Prelude.{
  length, ◌<◌, sym, ◌∙◌, inr, ◌-◌, inl, ltb, Bool-cases, eq_iff, nat_eq, ◌+◌, arith, false,
  if◌then◌else◌, not, refl, ◌&&◌, [], true, ◌==◌, ◌∷◌, ◌≡◌, ◌≤◌, Bool, List, String, ℕ,
}

-- A request that was answered, and whether it went on.
pub record Served : Type 0 where
  pub request : Hit
  pub went_on : Bool

abbrev pub same_slot : String → String → ℕ → Hit → Bool
same_slot village_id client_key minute h =
    h.village_id == village_id && h.client_key == client_key && nat_eq h.minute minute

-- The number of the requests of the key in the minute.
unfoldable pub tally : String → String → ℕ → List Served → ℕ
tally v c m [] = 0
tally v c m (s ∷ ss) =
    let earlier = tally v c m ss in if same_slot v c m s.request then earlier + 1 else earlier

-- The buckets, the history with the last request first, and the clock. It starts anywhere.
pub data Reached : List Bucket → List Served → ℕ → Type 0 where
  started : (now : ℕ) → Reached [] [] now
  served :
      {bs : List Bucket} {ss : List Served} {now : ℕ} (h : Hit)
      → Reached bs ss now
      → now ≤ h.minute
      → Reached (hit bs h).0 (record { request = h; went_on = (hit bs h).1 } ∷ ss) h.minute

-- No bucket of the key.
absent : String → String → List Bucket → Bool
absent v c [] = true
absent v c (b ∷ bs) = not (has_key v c b) && absent v c bs

Unique : List Bucket → Type 0
Unique [] = Unit
Unique (b ∷ bs) = (absent b.village_id b.client_key bs ≡ true) × Unique bs

count_at-absent :
    (v c : String) (m : ℕ) (bs : List Bucket) → absent v c bs ≡ true → count_at v c m bs ≡ 0
unfolding count_at absent
count_at-absent v c m [] h = refl
count_at-absent v c m (b ∷ bs) h = ground (arith, h, count_at-absent v c m bs)

count_at-set :
    (v c : String) (m : ℕ) (n : Bucket) (bs : List Bucket)
    → count_at v c m (set_bucket n bs)
      ≡ (if has_key v c n then (if nat_eq n.minute m then n.count else 0) else count_at v c m bs)
unfolding count_at set_bucket
count_at-set v c m n [] = refl
count_at-set v c m n (b ∷ bs) = ground (
  arith,
  count_at-set v c m n bs,
  eq_iff b.village_id v,
  eq_iff b.client_key c,
  eq_iff b.village_id n.village_id,
  eq_iff b.client_key n.client_key,
  eq_iff n.village_id v,
  eq_iff n.client_key c,
)

absent-set :
    (v c : String) (n : Bucket) (bs : List Bucket)
    → absent v c bs ≡ true
    → has_key v c n ≡ false
    → absent v c (set_bucket n bs) ≡ true
unfolding absent set_bucket
absent-set v c n [] h k = ground (arith, k)
absent-set v c n (b ∷ bs) h k = ground (arith, h, k, absent-set v c n bs)

has_key_comm :
    (n b : Bucket) → has_key n.village_id n.client_key b ≡ has_key b.village_id b.client_key n
has_key_comm n b = ground (
  arith,
  eq_iff n.village_id b.village_id,
  eq_iff n.client_key b.client_key,
  eq_iff b.village_id n.village_id,
  eq_iff b.client_key n.client_key,
)

has_key_keys :
    (v c : String) (b : Bucket) → has_key v c b ≡ true → (b.village_id ≡ v) × (b.client_key ≡ c)
has_key_keys v c b e = ground (arith, e, eq_iff b.village_id v, eq_iff b.client_key c)

absent-key :
    (v c : String) (b : Bucket) (bs : List Bucket)
    → has_key v c b ≡ true
    → absent b.village_id b.client_key bs ≡ true
    → absent v c bs ≡ true
absent-key v c b bs e a = let (p, q) = has_key_keys v c b e in rw (sym p, sym q) a

set-Unique : (n : Bucket) (bs : List Bucket) → Unique bs → Unique (set_bucket n bs)
unfolding set_bucket Unique absent
set-Unique n [] u = (refl, u)
set-Unique n (b ∷ bs) u = elim (Bool-cases (has_key n.village_id n.client_key b)) [
  | inl e ↦ rw e (absent-key n.village_id n.client_key b bs e u.0, u.1)
  | inr e ↦ rw e (
    absent-set b.village_id b.client_key n bs u.0 (sym (has_key_comm n b) ∙ e),
    set-Unique n bs u.1,
  )
]

absent-fresh :
    (v c : String) (m : ℕ) (bs : List Bucket)
    → absent v c bs ≡ true
    → absent v c (fresh_buckets m bs) ≡ true
unfolding absent fresh_buckets
absent-fresh v c m [] h = refl
absent-fresh v c m (b ∷ bs) h = ground (arith, absent-fresh v c m bs)

fresh-Unique : (m : ℕ) (bs : List Bucket) → Unique bs → Unique (fresh_buckets m bs)
unfolding fresh_buckets Unique
fresh-Unique m [] u = u
fresh-Unique m (b ∷ bs) u = elim (Bool-cases (ltb b.minute (m - 5))) [
  | inl e ↦ rw e (fresh-Unique m bs u.1)
  | inr e ↦ rw e (absent-fresh b.village_id b.client_key m bs u.0, fresh-Unique m bs u.1)
]

old_count :
    (v c : String) (m t : ℕ) (b : Bucket) (bs : List Bucket)
    → absent b.village_id b.client_key bs ≡ true
    → ltb b.minute (t - 5) ≡ true
    → t ≤ m
    → count_at v c m bs ≡ count_at v c m (b ∷ bs)
unfolding count_at
old_count v c m t b bs a e l = elim (Bool-cases (has_key v c b)) [
  | inl k ↦ ground (arith, k, e, count_at-absent v c m bs (absent-key v c b bs k a))
  | inr k ↦ ground (arith, k)
]

count_at-fresh :
    (v c : String) (m t : ℕ) (bs : List Bucket)
    → Unique bs
    → t ≤ m
    → count_at v c m (fresh_buckets t bs) ≡ count_at v c m bs
unfolding count_at fresh_buckets Unique
count_at-fresh v c m t [] u l = refl
count_at-fresh v c m t (b ∷ bs) u l = elim (Bool-cases (ltb b.minute (t - 5))) [
  | inl e ↦ rw e (count_at-fresh v c m t bs u.1 l ∙ old_count v c m t b bs u.0 e l)
  | inr e ↦ ground (arith, e, count_at-fresh v c m t bs u.1 l)
]

count_at-clean :
    (v c : String) (m t : ℕ) (bs : List Bucket)
    → Unique bs
    → t ≤ m
    → count_at v c m (clean_up t bs) ≡ count_at v c m bs
unfolding clean_up
count_at-clean v c m t bs u l = elim (Bool-cases (ltb 5000 (length bs))) [
  | inl e ↦ rw e (count_at-fresh v c m t bs u l)
  | inr e ↦ rw e refl
]

clean-Unique : (t : ℕ) (bs : List Bucket) → Unique bs → Unique (clean_up t bs)
unfolding clean_up
clean-Unique t bs u = elim (Bool-cases (ltb 5000 (length bs))) [
  | inl e ↦ rw e (fresh-Unique t bs u)
  | inr e ↦ rw e u
]

hit-Unique : (bs : List Bucket) (h : Hit) → Unique bs → Unique (hit bs h).0
unfolding hit
hit-Unique bs h u = clean-Unique h.minute _ (set-Unique _ bs u)

count_at-hit :
    (v c : String) (m : ℕ) (bs : List Bucket) (h : Hit)
    → Unique bs
    → h.minute ≤ m
    → count_at v c m (hit bs h).0 ≡ (
        if h.village_id == v && h.client_key == c
        then (if nat_eq h.minute m then count_at h.village_id h.client_key h.minute bs + 1 else 0)
        else count_at v c m bs)
unfolding hit
count_at-hit v c m bs h u l =
    count_at-clean v c m h.minute _ (set-Unique _ bs u) l ∙ count_at-set v c m _ bs

Counts : List Bucket → List Served → ℕ → Type 0
Counts bs ss now =
    Unique bs
    × ((v c : String) (m : ℕ) → now ≤ m → count_at v c m bs ≡ tally v c m ss)
    × ((v c : String) (m : ℕ) → now < m → tally v c m ss ≡ 0)

served-Counts :
    (bs : List Bucket) (ss : List Served) (now : ℕ) (h : Hit) (b : Bool)
    → Counts bs ss now
    → now ≤ h.minute
    → Counts (hit bs h).0 (record { request = h; went_on = b } ∷ ss) h.minute
unfolding Counts tally
served-Counts bs ss now h b (u, same, later) l = (
  hit-Unique bs h u,
  λ v c m k.
      count_at-hit v c m bs h u k
      ∙ ground (
        arith,
        k,
        l,
        eq_iff h.village_id v,
        eq_iff h.client_key c,
        same v c m (ground (arith, k, l)),
        same h.village_id h.client_key h.minute l,
        λ (e : now < m). later v c m e,
      ),
  λ v c m k. ground (arith, k, later v c m (ground (arith, k, l))),
)

started-Counts : (now : ℕ) → Counts [] [] now
unfolding Counts tally count_at Unique
started-Counts now = (tt, λ v c m l. refl, λ v c m l. refl)

Reached-Counts :
    {bs : List Bucket} {ss : List Served} {now : ℕ} → Reached bs ss now → Counts bs ss now
Reached-Counts (started now) = started-Counts now
Reached-Counts (served h r l) = served-Counts _ _ _ h _ (Reached-Counts r) l

-- Whatever requests came before, with a clock that does not go back, a request goes on exactly when fewer
-- requests of its village and client in its minute came before it than the policy allows, and a limit
-- below one counts as one.
pub hit-Reached :
    {bs : List Bucket} {ss : List Served} {now : ℕ} (h : Hit)
    → Reached bs ss now
    → now ≤ h.minute
    → (hit bs h).1 ≡ ltb (tally h.village_id h.client_key h.minute ss) (allowance h.limit)
unfolding hit Counts
hit-Reached {bs} {ss} h r l =
    let (u, same, later) = Reached-Counts r in
    ground (arith, same h.village_id h.client_key h.minute l)
