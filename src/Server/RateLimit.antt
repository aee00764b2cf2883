-- ===== src/Server/RateLimit.antt =====
-- links/server.py: the middleware that limits the requests per village, client and minute. The dict
-- of buckets is a list with one entry for each key, in any order.
pub mod Counted
pub mod Bounded
use policy_mesh.Villages.Name.{validate_village_id}
use policy_mesh.Prelude.{
  false, length, ◌&&◌, ◌-◌, [], ltb, nat_eq, none, not, true, ◌+◌, ◌==◌, Bool, if◌then◌else◌, keep,
  some, ◌∷◌, List, Option, String, ℕ, split_on, starts_with,
}
use policy_mesh.Prelude.Int.{negsuc, pos, ℤ}

-- An entry of `_buckets`: the key, and the minute and the count that it stands for.
pub record Bucket : Type 0 where
  pub village_id : String
  pub client_key : String
  pub minute : ℕ
  pub count : ℕ

abbrev pub has_key : String → String → Bucket → Bool
has_key village_id client_key b = b.village_id == village_id && b.client_key == client_key

-- The count of the key in the minute: nought where the entry is missing or of another minute.
unfoldable pub count_at : String → String → ℕ → List Bucket → ℕ
count_at village_id client_key minute [] = 0
count_at village_id client_key minute (b ∷ bs) =
    let later = count_at village_id client_key minute bs in
    if has_key village_id client_key b
    then (if nat_eq b.minute minute then b.count else 0)
    else later

-- `_buckets[k] = (m0, c0)`
unfoldable pub set_bucket : Bucket → List Bucket → List Bucket
set_bucket n [] = n ∷ []
set_bucket n (b ∷ bs) =
    let later = set_bucket n bs in if has_key n.village_id n.client_key b then n ∷ bs else b ∷ later

-- The entries that are not older than five minutes are kept.
unfoldable pub fresh_buckets : ℕ → List Bucket → List Bucket
fresh_buckets minute = keep (λ b. not (ltb b.minute (minute - 5)))

unfoldable pub clean_up : ℕ → List Bucket → List Bucket
unfolding fresh_buckets
clean_up minute bs = if ltb 5000 (length bs) then fresh_buckets minute bs else bs

-- One request, with the limit of the village's policy.
pub record Hit : Type 0 where
  pub village_id : String
  pub client_key : String
  pub minute : ℕ
  pub limit : ℤ

-- `max(1, limit)`
abbrev pub allowance : ℤ → ℕ
allowance (pos n) = if ltb n 1 then 1 else n
allowance (negsuc n) = 1

-- The buckets after the request, and whether it goes on.
unfoldable pub hit : List Bucket → Hit → List Bucket × Bool
unfolding count_at set_bucket clean_up
hit bs h =
    let c0 = count_at h.village_id h.client_key h.minute bs + 1 in
    let counted : Bucket = record {
      village_id = h.village_id;
      client_key = h.client_key;
      minute = h.minute;
      count = c0;
    } in
    (clean_up h.minute (set_bucket counted bs), not (ltb (allowance h.limit) c0))

pub data Answer : Type 0 where
  goes_on : Answer
  invalid_village_id : Answer
  rate_limit_exceeded : Answer

-- `load_village(...).policy.rate_limit_per_min`, and 60 where that fails
abbrev pub limit_of : Option ℤ → ℤ
limit_of none = pos 60
limit_of (some limit) = limit

abbrev pub answered : List Bucket × Bool → List Bucket × Answer
answered (bs, true) = (bs, goes_on)
answered (bs, false) = (bs, rate_limit_exceeded)

-- `path.split("/")[2]`, where there are three parts
abbrev pub third : List String → Option String
third (_ ∷ _ ∷ s ∷ _) = some s
third _ = none

unfoldable pub limit_village :
    (String → Option ℤ) → List Bucket → Option String → String → ℕ → List Bucket × Answer
unfolding hit validate_village_id
limit_village limits bs none client_key minute = (bs, goes_on)
limit_village limits bs (some village_id) client_key minute =
    if validate_village_id village_id
    then answered (
        hit bs (record {
          village_id = village_id;
          client_key = client_key;
          minute = minute;
          limit = limit_of (limits village_id);
        }))
    else (bs, invalid_village_id)

unfoldable pub rate_limit :
    (String → Option ℤ) → List Bucket → String → String → ℕ → List Bucket × Answer
unfolding limit_village split_on starts_with
rate_limit limits bs path client_key minute =
    if starts_with "/villages/" path
    then limit_village limits bs (third (split_on b'/' path)) client_key minute
    else (bs, goes_on)
