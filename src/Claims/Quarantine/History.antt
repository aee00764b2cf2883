-- ===== src/Claims/Quarantine/History.antt =====
-- links/quarantine.py: the states that calls reach.
use policy_mesh.Claims.Quarantine.{
  directory_for, approve_quarantine, Approval, HeldFile, Yard, quarantine_bundle, reject_quarantine,
  Review,
}
use policy_mesh.Claims.Store.{bundle_exists, ingest_bundle, Ingest, ClaimStore}
use policy_mesh.Prelude.{
  ◌∙◌, true, false, inr, inl, ap, none, refl, Bool-cases, Bool, Option, String, sym, ℕ, ◌≡◌, [],
}
use policy_mesh.Claims.Store.Consistent.{
  keep-Consistent, ok-injective, ingest-Consistent, Consistent, rows_of_all,
}
use policy_mesh.Claims.Quarantine.Approved.{approve-answer_for, after_approval, answer_for}
use policy_mesh.Json.{Entries}
use mathlib.Core.Path.{subst}
use policy_mesh.Claims.{some, verify_bundle, ClaimBundle}
use policy_mesh.Update.{Error, Result, raise, validation_error, bind-returns, ok}

abbrev pub empty_store : ClaimStore
empty_store = record { bundles = []; rows = [] }

module _ (R : Review) where
  -- The states that calls which return reach from an empty store.
  pub data Filled : Yard → Type 0 where
    opened : (y : Yard) → y.store ≡ empty_store → Filled y
    quarantined :
        {y after : Yard} (object : Entries) (bundle_id : String) (village_id : Option String)
        (day : ℕ)
        → Filled y
        → quarantine_bundle y object bundle_id village_id day ≡ ok after
        → Filled after
    dismissed :
        {y after : Yard} (file : HeldFile) (village_id : Option String) (day : ℕ)
        → Filled y
        → reject_quarantine y file village_id day ≡ ok after
        → Filled after
    taken_in :
        {y : Yard} (b : ClaimBundle) (after : ClaimStore × Ingest)
        → Filled y
        → ingest_bundle R.crypto R.bundle_json R.accepts_signature y.store b ≡ ok after
        → Filled (record y { store = after.0 })
    reviewed :
        {y : Yard} (file : HeldFile) (today : ℕ) (after : Yard × Approval)
        → Filled y
        → approve_quarantine R y file today ≡ ok after
        → Filled after.0

  abbrev pub Sound : Yard → Type 0
  Sound y = Consistent R.crypto R.bundle_json R.accepts_signature y.store

  answer-Sound :
      (y : Yard) (file : HeldFile) (cb : ClaimBundle) (today : ℕ) (v : Bool)
      → Sound y
      → verify_bundle R.crypto R.bundle_json R.accepts_signature cb ≡ ok v
      → Sound (answer_for R y file cb today v).0
  unfolding answer_for after_approval
  answer-Sound y file cb today false s e = s
  answer-Sound y file cb today true s e = elim (Bool-cases (bundle_exists cb.bundle_id y.store)) [
    | inl x ↦ rw x s
    | inr x ↦ rw x (keep-Consistent R.crypto R.bundle_json R.accepts_signature y.store cb s e x)
  ]

  refused-Sound :
      (problem : Error) (after : Yard × Approval) → raise problem ≡ ok after → Sound after.0
  refused-Sound problem after e = cc

  unreadable_lem :
      (y : Yard) (file : HeldFile) (today : ℕ)
      → R.read_bundle file.object ≡ none
      → approve_quarantine R y file today ≡ raise validation_error
  unfolding approve_quarantine
  unreadable_lem y file today r = rw (approve_quarantine, r) refl

  unchecked_lem :
      (y : Yard) (file : HeldFile) (today : ℕ) (cb : ClaimBundle) (problem : Error)
      → R.read_bundle file.object ≡ some cb
      → verify_bundle R.crypto R.bundle_json R.accepts_signature cb ≡ raise problem
      → approve_quarantine R y file today ≡ raise problem
  unfolding approve_quarantine
  unchecked_lem y file today cb problem r v = rw (approve_quarantine, r) (rw v refl)

  checked-Sound :
      (y : Yard) (file : HeldFile) (today : ℕ) (after : Yard × Approval) (cb : ClaimBundle)
      (v : Result Bool)
      → Sound y
      → R.read_bundle file.object ≡ some cb
      → verify_bundle R.crypto R.bundle_json R.accepts_signature cb ≡ v
      → approve_quarantine R y file today ≡ ok after
      → Sound after.0
  checked-Sound y file today after cb (raise problem) s r v e =
      refused-Sound problem after (sym (unchecked_lem y file today cb problem r v) ∙ e)
  checked-Sound y file today after cb (ok verified) s r v e =
      subst (λ x. Sound x.0)
        (ok-injective (sym (approve-answer_for R y file today cb verified r v) ∙ e))
        (answer-Sound y file cb today verified s v)

  read-Sound :
      (y : Yard) (file : HeldFile) (today : ℕ) (after : Yard × Approval) (cb : Option ClaimBundle)
      → Sound y
      → R.read_bundle file.object ≡ cb
      → approve_quarantine R y file today ≡ ok after
      → Sound after.0
  read-Sound y file today after none s r e =
      refused-Sound validation_error after (sym (unreadable_lem y file today r) ∙ e)
  read-Sound y file today after (some cb) s r e = checked-Sound y file today after cb _ s r refl e

  quarantine-store :
      (y after : Yard) (object : Entries) (bundle_id : String) (village_id : Option String)
      (day : ℕ)
      → quarantine_bundle y object bundle_id village_id day ≡ ok after
      → after.store ≡ y.store
  unfolding quarantine_bundle
  quarantine-store y after object bundle_id village_id day e =
      let (place, p, last) = bind-returns (directory_for village_id) _ e in
      ap (λ x. x.store) (sym (ok-injective last))

  reject-store :
      (y after : Yard) (file : HeldFile) (village_id : Option String) (day : ℕ)
      → reject_quarantine y file village_id day ≡ ok after
      → after.store ≡ y.store
  unfolding reject_quarantine
  reject-store y after file village_id day e =
      let (place, p, last) = bind-returns (directory_for village_id) _ e in
      ap (λ x. x.store) (sym (ok-injective last))

  empty-Sound : (y : Yard) → y.store ≡ empty_store → Sound y
  unfolding rows_of_all
  empty-Sound y e =
      subst (λ s. Consistent R.crypto R.bundle_json R.accepts_signature s) (sym e)
        (record { once = tt; genuine = tt; indexed = refl })

  -- However bundles are put into quarantine, rejected, ingested and approved from an empty store on, each
  -- bundle of the store verifies, no two have the same identifier, and the rows of the index are those of
  -- the claims of the bundles, in their order.
  pub Filled-Sound : {y : Yard} → Filled y → Sound y
  Filled-Sound (opened y e) = empty-Sound y e
  Filled-Sound (quarantined {y} {after} object bundle_id village_id day f e) =
      subst (λ s. Consistent R.crypto R.bundle_json R.accepts_signature s)
        (sym (quarantine-store y after object bundle_id village_id day e)) (Filled-Sound f)
  Filled-Sound (dismissed {y} {after} file village_id day f e) =
      subst (λ s. Consistent R.crypto R.bundle_json R.accepts_signature s)
        (sym (reject-store y after file village_id day e)) (Filled-Sound f)
  Filled-Sound (taken_in {y} b after f e) =
      ingest-Consistent R.crypto R.bundle_json R.accepts_signature y.store b after (Filled-Sound f)
        e
  Filled-Sound (reviewed {y} file today after f e) =
      read-Sound y file today after _ (Filled-Sound f) refl e
