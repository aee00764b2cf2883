-- ===== src/Tests/RateLimit.antt =====
-- Tests of the rate limit of links/server.py.
use policy_mesh.Server.RateLimit.{
  Bucket, goes_on, invalid_village_id, rate_limit_exceeded, Hit, rate_limit, hit,
}
use policy_mesh.Server.RateLimit.Counted.{Served, Reached, started, served, tally, hit-Reached}
use policy_mesh.Server.RateLimit.Bounded.{one_allowance, let_through, let_through-Reached}
use policy_mesh.Prelude.Int.{pos}
use policy_mesh.Prelude.{arith, ◌≤◌, ◌∷◌, [], refl, false, ltb, List, some, ◌≡◌}
use Prim.Native.Nat.{min}

-- One of the requests of Ann's machine in the minute 7, where two a minute are allowed.
abbrev ask : Hit
ask = record { village_id = "green"; client_key = "10.0.0.1"; minute = 7; limit = pos 2 }

abbrev once : List Bucket
once = (hit [] ask).0

abbrev twice : List Bucket
twice = (hit once ask).0

seven : 7 ≤ ask.minute
seven = omega arith

-- What became of the requests, with the last one first.
abbrev history : List Served
history =
    record { request = ask; went_on = (hit once ask).1 }
    ∷ record { request = ask; went_on = (hit [] ask).1 }
    ∷ []

abbrev two_served : Reached twice history 7
two_served = served ask (served ask (started 7) seven) seven

third_refused : (hit twice ask).1 ≡ false
unfolding hit
third_refused = refl

-- A path of another kind is not counted, and a village's name must be one.
other_path : (rate_limit (λ _. some (pos 1)) twice "/nodes/capability" "10.0.0.1" 7).1 ≡ goes_on
unfolding rate_limit
other_path = refl

bad_village :
    (rate_limit (λ _. some (pos 1)) twice "/villages/.././x" "10.0.0.1" 7).1 ≡ invalid_village_id
unfolding rate_limit
bad_village = refl

limited_path :
    (rate_limit (λ _. some (pos 2)) twice "/villages/green/policy/latest" "10.0.0.1" 7).1
    ≡ rate_limit_exceeded
unfolding rate_limit
limited_path = refl

hit-Reached_example : (hit twice ask).1 ≡ ltb (tally "green" "10.0.0.1" 7 history) 2
hit-Reached_example = hit-Reached ask two_served seven

-- Two of Ann's three requests go on.
abbrev longer : List Served
longer = record { request = ask; went_on = (hit twice ask).1 } ∷ history

let_through-Reached_example :
    let_through "green" "10.0.0.1" 7 longer ≡ min 2 (tally "green" "10.0.0.1" 7 longer)
unfolding one_allowance
let_through-Reached_example =
    let_through-Reached "green" "10.0.0.1" 7 2 (served ask two_served seven) refl
