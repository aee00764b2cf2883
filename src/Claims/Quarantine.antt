-- ===== src/Claims/Quarantine.antt =====
-- links/quarantine.py: bundles that wait for a review, and what becomes of them. The denial artifacts,
-- which are written as far as there is a key, and the texts of the reasons are left out. Days stand
-- for the dates of the audit log, and the names of files have no slash.
pub mod Approved
pub mod History
use policy_mesh.Update.{
  key_hash_from_public_key_b64, validation_error, ok, raise, Result, Crypto, ◌>>=◌,
}
use policy_mesh.Json.{Entries}
use policy_mesh.Villages.{Village}
use policy_mesh.Claims.{value_error, some, BundlePayload, ClaimBundle, verify_bundle}
use policy_mesh.Villages.Name.{validate_village_id}
use policy_mesh.Villages.Bundles.{enforce_policy_on_bundle, Bundle, BundleMessage}
use policy_mesh.Prelude.{
  ◌+◌, nat_eq, truthy, [], if◌then◌else◌, not, true, ◌==◌, false, keep, none, ◌&&◌, ◌++◌, ◌∷◌, Bool,
  List, Option, String, ℕ,
}
use policy_mesh.Claims.Store.{ingested, Ingest, ClaimStore, ingest_bundle}
use policy_mesh.Prelude.Int.{pos, ltb_ℤ, ℤ}
use policy_mesh.Villages.Issuers.{issuer_allowed}

-- A file of the quarantine or of the rejected bundles, under the directory of a village or not.
pub record HeldFile : Type 0 where
  pub village_id : Option String
  pub stem : String
  pub object : Entries

pub record QuarantineEvent : Type 0 where
  pub action : String
  pub bundle_id : String
  pub village_id : Option String
  pub day : ℕ

-- What the functions read and write under `store_root`.
pub record Yard : Type 0 where
  pub store : ClaimStore
  pub quarantine : List HeldFile
  pub rejected : List HeldFile
  pub audit : List QuarantineEvent

pub data Approval : Type 0 where
  cannot_approve : Approval
  policy_denies : BundleMessage → Approval
  issuer_denied : Approval
  quota_exceeded : ℕ → ℤ → Approval
  ingest_says : Ingest → Approval

-- `None` and a text are told apart, as directories are.
abbrev pub same_village : Option String → Option String → Bool
same_village none none = true
same_village (some a) (some b) = a == b
same_village _ _ = false

abbrev pub same_path : HeldFile → HeldFile → Bool
same_path f g = same_village f.village_id g.village_id && f.stem == g.stem

-- `path.unlink()`
unfoldable pub unlink : HeldFile → List HeldFile → List HeldFile
unlink f = keep (λ g. not (same_path f g))

-- `path.write_text(...)`
unfoldable pub write_file : HeldFile → List HeldFile → List HeldFile
unfolding unlink
write_file f files = unlink f files ++ (f ∷ [])

abbrev pub write_audit : String → String → Option String → ℕ → Yard → Yard
write_audit action bundle_id village_id day y = record y {
  audit =
      y.audit
      ++ (record { action = action; bundle_id = bundle_id; village_id = village_id; day = day }
          ∷ []);
}

-- `quarantine_dir` and `rejected_dir`: a name that is no village's raises; an empty one is none.
unfoldable pub directory_for : Option String → Result (Option String)
unfolding validate_village_id
directory_for none = ok none
directory_for (some v) =
    if not (truthy v)
    then ok none
    else if validate_village_id v
    then ok (some v)
    else raise value_error

unfoldable pub quarantine_bundle : Yard → Entries → String → Option String → ℕ → Result Yard
unfolding directory_for write_file
quarantine_bundle y object bundle_id village_id day = do
  place ← directory_for village_id
  let file : HeldFile = record { village_id = place; stem = bundle_id; object = object }
  ok (
      write_audit "ingest.quarantine" bundle_id village_id day
        (record y { quarantine = write_file file y.quarantine }))

unfoldable pub reject_quarantine : Yard → HeldFile → Option String → ℕ → Result Yard
unfolding directory_for write_file unlink
reject_quarantine y file village_id day = do
  place ← directory_for village_id
  let moved : HeldFile = record { village_id = place; stem = file.stem; object = file.object }
  ok (
      write_audit "quarantine.reject" file.stem village_id day (record y {
        rejected = write_file moved y.rejected;
        quarantine = unlink file y.quarantine;
      }))

-- `getattr(cb, "village_id", None)`: the model of a bundle has no such field.
abbrev pub village_of : ClaimBundle → Option String
village_of cb = none

unfoldable pub count_approvals : List QuarantineEvent → String → ℕ → ℕ
count_approvals [] village_id today = 0
count_approvals (e ∷ rest) village_id today =
    let n = count_approvals rest village_id today in
    if e.action == "quarantine.approve"
      && (same_village e.village_id (some village_id) && nat_eq e.day today)
    then n + 1
    else n

-- `quota > 0 and used >= quota`
abbrev pub quota_check : ℕ → ℤ → Option Approval
quota_check used quota =
    if ltb_ℤ (pos 0) quota && not (ltb_ℤ (pos used) quota)
    then some (quota_exceeded used quota)
    else none

-- hashlib, base64 and PyNaCl; the villages that can be loaded; pydantic's reading of a bundle, and the
-- keys that `enforce_policy_on_bundle` reads of a dict.
pub record Review : Type 0 where
  pub crypto : Crypto
  pub bundle_json : BundlePayload → List ℕ
  pub accepts_signature : List ℕ → Bool
  pub villages : String → Option Village
  pub read_bundle : Entries → Option ClaimBundle
  pub keys_of : Entries → Bundle

module _ (R : Review) where
  -- The key's hash, where the bundle has a key.
  abbrev pub issuer_hash : ClaimBundle → Result (Option String)
  issuer_hash cb = elim cb.public_key [
    | none ↦ ok none
    | some key ↦
        if truthy key
        then (do h ← key_hash_from_public_key_b64 R.crypto key; ok (some h))
        else ok none
  ]

  abbrev pub issuer_denies : Village → Option String → Bool
  issuer_denies v none = false
  issuer_denies v (some h) = truthy h && not (issuer_allowed v.policy h)

  -- what the policy of the bundle's village says, or nothing against it
  unfoldable pub check_village :
      Yard → Option String → Entries → ClaimBundle → ℕ → Result (Option Approval)
  unfolding count_approvals
  check_village y none object cb today = ok none
  check_village y (some village_id) object cb today = elim (R.villages village_id) [
    | none ↦ raise value_error
    | some v ↦
        let answer = enforce_policy_on_bundle v (R.keys_of object) in
        if not answer.0 then ok (some (policy_denies answer.1)) else do
          h ← issuer_hash cb
          ok (
              if issuer_denies v h
              then some issuer_denied
              else quota_check (count_approvals y.audit village_id today)
                  v.policy.submission_quota_per_day)
  ]

  -- after `ingest_bundle_file`
  unfoldable pub approved :
      Yard → HeldFile → Option String → ℕ → ClaimStore × Ingest → Yard × Approval
  unfolding unlink
  approved y file village_id today (s, ingested h n) = (
    write_audit "quarantine.approve" file.stem village_id today
        (record y { store = s; quarantine = unlink file y.quarantine }),
    ingest_says (ingested h n),
  )
  approved y file village_id today (s, answer) = (record y { store = s }, ingest_says answer)

  unfoldable pub approve_checked :
      Yard → HeldFile → ClaimBundle → ℕ → Option Approval → Result (Yard × Approval)
  unfolding approved ingest_bundle
  approve_checked y file cb today (some denial) = ok (y, denial)
  approve_checked y file cb today none = do
    done ← ingest_bundle R.crypto R.bundle_json R.accepts_signature y.store cb
    ok (approved y file (village_of cb) today done)

  unfoldable pub approve_verified :
      Yard → HeldFile → ClaimBundle → ℕ → Bool → Result (Yard × Approval)
  unfolding approve_checked check_village
  approve_verified y file cb today false = ok (y, cannot_approve)
  approve_verified y file cb today true = do
    denial ← check_village y (village_of cb) file.object cb today
    approve_checked y file cb today denial

  unfoldable pub approve_quarantine : Yard → HeldFile → ℕ → Result (Yard × Approval)
  unfolding approve_verified verify_bundle
  approve_quarantine y file today = elim (R.read_bundle file.object) [
    | none ↦ raise validation_error
    | some cb ↦ do
      verified ← verify_bundle R.crypto R.bundle_json R.accepts_signature cb
      approve_verified y file cb today verified
  ]
