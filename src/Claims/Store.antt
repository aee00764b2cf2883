-- ===== src/Claims/Store.antt =====
-- links/store.py: the store of the verified bundles and of the rows of their claims, without SQLite.
-- A bundle names no village, so that all lie in one directory.
pub mod Consistent
use policy_mesh.Update.{ok, ◌>>=◌}
use policy_mesh.Prelude.{
  ◌==◌, ◌&&◌, true, truthy, ◌||◌, [], length, map, some, contains, false, if◌then◌else◌, none, not,
  ◌∷◌, Bool, keep, ℕ, ◌++◌, List, Option, String,
}
use policy_mesh.Update.{Result, Crypto}
use policy_mesh.Claims.{verify_bundle, BundlePayload, Claim, ClaimBundle}

-- A line of `index/claims.jsonl`. The claim's own fields are written over the bundle's of the same
-- name, so that the issuer and the window are those of the claim.
pub record ClaimRow : Type 0 where
  pub bundle_id : String
  pub created_at : ℕ
  pub village_id : Option String
  pub visibility : Option String
  pub claim : Claim

pub record ClaimStore : Type 0 where
  pub bundles : List ClaimBundle
  pub rows : List ClaimRow

pub data Ingest : Type 0 where
  failed_verification : Ingest
  replay_detected : Ingest
  ingested : String → ℕ → Ingest

unfoldable pub rows_of : ClaimBundle → List ClaimRow
rows_of bundle = map (λ c. row c) bundle.claims
  where
    row : Claim → ClaimRow
    row c = record {
      bundle_id = bundle.bundle_id;
      created_at = bundle.created_at;
      village_id = none;
      visibility = none;
      claim = c;
    }

-- `bundle_out.exists()`
abbrev pub bundle_exists : String → ClaimStore → Bool
bundle_exists bundle_id s = contains bundle_id (map (λ b. b.bundle_id) s.bundles)

unfoldable pub keep_bundle : ClaimStore → ClaimBundle → ClaimStore
unfolding rows_of
keep_bundle s bundle = record {
  bundles = s.bundles ++ (bundle ∷ []);
  rows = s.rows ++ rows_of bundle;
}

abbrev pub ingest_verified : ClaimStore → ClaimBundle → Bool → ClaimStore × Ingest
ingest_verified s bundle false = (s, failed_verification)
ingest_verified s bundle true =
    if bundle_exists bundle.bundle_id s
    then (s, replay_detected)
    else (keep_bundle s bundle, ingested bundle.bundle_id (length bundle.claims))

module _ (C : Crypto) (bundle_json : BundlePayload → List ℕ)
    (accepts_signature : List ℕ → Bool) where
  unfoldable pub ingest_bundle : ClaimStore → ClaimBundle → Result (ClaimStore × Ingest)
  unfolding keep_bundle contains verify_bundle
  ingest_bundle s bundle = do
    verified ← verify_bundle C bundle_json accepts_signature bundle
    ok (ingest_verified s bundle verified)

-- `wanted and row.get(...) != wanted`
abbrev pub other_than : Option String → Option String → Bool
other_than none found = false
other_than (some w) none = truthy w
other_than (some w) (some f) = truthy w && not (f == w)

unfoldable pub query_claims :
    Option String → Option String → Option String → Option String → List ClaimRow → List ClaimRow
query_claims subject issuer predicate village_id = keep (λ row. not (
    other_than subject (some row.claim.subject)
    || other_than issuer (some row.claim.issuer)
    || other_than predicate (some row.claim.predicate)
    || other_than village_id row.village_id))
