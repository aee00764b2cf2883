-- ===== src/Claims/Quarantine/Approved.antt =====
-- links/quarantine.py: what an approval answers.
use policy_mesh.Update.{ok}
use policy_mesh.Claims.Quarantine.{
  ingest_says, cannot_approve, unlink, Approval, approved, approve_checked, write_audit,
  check_village, approve_verified, HeldFile, approve_quarantine, Review, Yard,
}
use policy_mesh.Claims.{verify_bundle, ClaimBundle}
use policy_mesh.Prelude.{
  true, refl, false, inr, length, inl, Bool-cases, some, not, ◌≡◌, if◌then◌else◌, none, Bool, ℕ,
}
use policy_mesh.Claims.Store.{ingested, replay_detected, bundle_exists, ingest_bundle, keep_bundle}

-- The yard after the approval of a bundle that is new to the store.
unfoldable pub after_approval : Yard → HeldFile → ClaimBundle → ℕ → Yard
after_approval y file cb today =
    write_audit "quarantine.approve" file.stem none today
      (record y { store = keep_bundle y.store cb; quarantine = unlink file y.quarantine })

module _ (R : Review) where
  -- The answer for a bundle that can be read, by whether it verifies and whether the store has it.
  unfoldable pub answer_for : Yard → HeldFile → ClaimBundle → ℕ → Bool → Yard × Approval
  answer_for y file cb today verified =
      if not verified
      then (y, cannot_approve)
      else if bundle_exists cb.bundle_id y.store
      then (y, ingest_says replay_detected)
      else (after_approval y file cb today, ingest_says (ingested cb.bundle_id (length cb.claims)))

  -- The approval of a bundle that can be read and whose signature can be checked comes down to this: it is
  -- refused where it does not verify or the store has its identifier, and otherwise the bundle goes into
  -- the store, its file out of the quarantine, and an entry without a village into the audit log. The
  -- policies of the villages, their lists of issuers and their quotas have no part in it, whatever
  -- village the file names.
  pub approve-answer_for :
      (y : Yard) (file : HeldFile) (today : ℕ) (cb : ClaimBundle) (verified : Bool)
      → R.read_bundle file.object ≡ some cb
      → verify_bundle R.crypto R.bundle_json R.accepts_signature cb ≡ ok verified
      → approve_quarantine R y file today ≡ ok (answer_for y file cb today verified)
  unfolding approve_quarantine approve_verified check_village approve_checked approved ingest_bundle
      answer_for after_approval
  approve-answer_for y file today cb false r v = rw (approve_quarantine, r) (rw v refl)
  approve-answer_for y file today cb true r v =
      elim (Bool-cases (bundle_exists cb.bundle_id y.store)) [
        | inl e ↦ rw (approve_quarantine, r) (rw v (rw (ingest_bundle, v) (rw e refl)))
        | inr e ↦ rw (approve_quarantine, r) (rw v (rw (ingest_bundle, v) (rw e refl)))
      ]
