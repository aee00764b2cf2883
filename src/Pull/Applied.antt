-- ===== src/Pull/Applied.antt =====
-- What a pulled update has passed when it is applied.
use policy_mesh.Pull.{
  raise, pulled_of, policy_pull, pull_from, pull_checked, check_material, check_pulled_manifest,
  decide, PullContext, Pulled, decided, Outcome, is_apply, find_update, choose,
}
use policy_mesh.Update.{
  Error, verify_update_any, ok, Crypto, VillagePolicyUpdate, bind-returns, Result, policy_hashes,
}
use policy_mesh.Admission.Decide.{is_blocked, is_waiting, evaluate_lem}
use policy_mesh.Admission.{apply, reject, defer, is_false, Decision}
use policy_mesh.Feed.Manifest.{
  verify_manifest_against_policy, ManifestMessage, PolicyFeedManifest, ManifestPayload,
}
use policy_mesh.Feed.Policy.{has_any, FeedMessage, signer_allowed}
use policy_mesh.Feed.Gaps.{Filled, fill_history_gaps}
use policy_mesh.Prelude.{
  sym, ◌∙◌, ap, Option-cases, eq_iff, none, inr, arith, inl, All, ◌==◌, Bool-cases, ◌⊎◌, [], false,
  ◌∷◌, Bool, refl, some, String, true, ℕ, List, Option, ◌≡◌,
}
use policy_mesh.Reconcile.{ReconciliationReport, reconcile}
use policy_mesh.Reconcile.Laws.{max_from-Latest, Latest}
use mathlib.Core.Path.{subst}

find-In :
    (h : Option String) (us : List VillagePolicyUpdate) (v : VillagePolicyUpdate)
    → find_update h us ≡ some v
    → h ≡ some v.policy_hash
unfolding find_update
find-In none us v e = cc
find-In (some h) [] v e = cc
find-In (some h) (u ∷ us) v e = elim (Bool-cases (u.policy_hash == h)) [
  | inl s ↦ ground (arith, eq_iff u.policy_hash h)
  | inr d ↦ find-In (some h) us v (ground arith)
]

none_found :
    (us : List VillagePolicyUpdate)
    → All (λ u. ¬ (◌≡◌ {A = Option String} none (some u.policy_hash))) us
none_found [] = ground arith
none_found (u ∷ us) = (λ n. cc, none_found us)

find-Absent :
    (h : Option String) (us : List VillagePolicyUpdate)
    → find_update h us ≡ none
    → All (λ u. ¬ (h ≡ some u.policy_hash)) us
unfolding find_update
find-Absent h [] e = ground arith
find-Absent none (u ∷ us) e = (λ n. cc, none_found us)
find-Absent (some h) (u ∷ us) e = elim (Bool-cases (u.policy_hash == h)) [
  | inl s ↦ ground arith
  | inr d ↦ (λ n. ground (arith, eq_iff u.policy_hash h), find-Absent (some h) us (ground arith))
]

decided-injective :
    (p q : Pulled) → ◌≡◌ {A = Result Outcome} (ok (decided p)) (ok (decided q)) → p ≡ q
decided-injective p q e = cc

abbrev ChosenBy :
    Option String
    → VillagePolicyUpdate
    → List VillagePolicyUpdate
    → Option VillagePolicyUpdate
    → Type 0
ChosenBy h u us found =
    let v = choose found u us in
    (h ≡ some v.policy_hash) ⊎ (All (λ w. ¬ (h ≡ some w.policy_hash)) (u ∷ us) × Latest v (u ∷ us))

choose_lem :
    (u : VillagePolicyUpdate) (us : List VillagePolicyUpdate) (h : Option String)
    → let v = choose (find_update h (u ∷ us)) u us in
      (h ≡ some v.policy_hash)
      ⊎ (All (λ w. ¬ (h ≡ some w.policy_hash)) (u ∷ us) × Latest v (u ∷ us))
unfolding choose
choose_lem u us h = elim (Option-cases (find_update h (u ∷ us))) [
  | inl e ↦ subst (ChosenBy h u us) (sym e) (inr (find-Absent h (u ∷ us) e, max_from-Latest u us))
  | inr (v, e) ↦ subst (ChosenBy h u us) (sym e) (inl (find-In h (u ∷ us) v e))
]

is_apply_iff : (d : Decision) → is_apply d ≡ true → d ≡ apply
is_apply_iff apply e = refl
is_apply_iff reject e = cc
is_apply_iff defer e = cc

Result-cases :
    {A : Type 0} (r : Result A) → ((problem : Error) × (r ≡ raise problem)) ⊎ ((a : A) × (r ≡ ok a))
Result-cases (raise problem) = inl (problem, refl)
Result-cases (ok a) = inr (a, refl)

module _ (C : Crypto) (manifest_json : ManifestPayload → List ℕ) (accepts_signature : List ℕ → Bool)
    (message_text : FeedMessage → String) where
  -- The update may be taken: it is asked for, its signers are allowed, and nothing blocks or delays it.
  pub Admitted : PullContext → Pulled → Type 0
  Admitted q p =
      (q.apply_flag ≡ true)
      × ((why : FeedMessage) × (signer_allowed C q.current_policy p.chosen ≡ ok (true, why)))
      × (is_blocked q.current_policy p.chosen p.manifest_ok true q.now ≡ false)
      × (is_waiting p.chosen q.now ≡ false)

  pulled-Admitted :
      (q : PullContext) (manifest_ok : Option Bool) (fetched unresolved : List String)
      (report : ReconciliationReport) (u : VillagePolicyUpdate) (signer : Bool × FeedMessage)
      → signer_allowed C q.current_policy u ≡ ok signer
      → (pulled_of C manifest_json accepts_signature message_text q manifest_ok fetched unresolved
          report u signer).applied
        ≡ true
      → Admitted q (
          pulled_of C manifest_json accepts_signature message_text q manifest_ok fetched unresolved
            report u signer)
  unfolding pulled_of Admitted
  pulled-Admitted q mo f un r u (true, why) es a = (
    ground arith,
    (why, es),
    ground (arith, (evaluate_lem q.current_policy u mo true (message_text why) q.now).0),
    ground (arith, (evaluate_lem q.current_policy u mo true (message_text why) q.now).0),
  )
  pulled-Admitted q mo f un r u (false, why) es a =
      ground (arith, (evaluate_lem q.current_policy u mo false (message_text why) q.now).0)

  -- The update that is decided on has the selected hash, or none of the updates has it and it is a latest one of them.
  abbrev pub Chosen : List VillagePolicyUpdate → Pulled → Type 0
  Chosen us p =
      (p.report.selected_head ≡ some p.chosen.policy_hash)
      ⊎ (All (λ u. ¬ (p.report.selected_head ≡ some u.policy_hash)) us × Latest p.chosen us)

  decide_lem :
      (q : PullContext) (manifest_ok : Option Bool) (fetched unresolved : List String)
      (us : List VillagePolicyUpdate) (p : Pulled)
      → decide C manifest_json accepts_signature message_text q manifest_ok fetched unresolved us
        ≡ ok (decided p)
      → (p.applied ≡ true → Admitted q p)
        × (p.manifest_ok ≡ manifest_ok)
        × Chosen us p
        × (p.report ≡ reconcile C q.local_updates us q.village_id)
        × (p.fetched_parent_hashes ≡ fetched)
        × (p.unresolved_parent_hashes ≡ unresolved)
  unfolding decide
  decide_lem q mo f un [] p e = cc
  decide_lem q mo f un (u ∷ us) p e =
      let report = reconcile C q.local_updates (u ∷ us) q.village_id in
      let v = choose (find_update report.selected_head (u ∷ us)) u us in
      let (signer, es, rest) = bind-returns (signer_allowed C q.current_policy v) _ e in
      let same = decided-injective _ _ rest in
      subst
        (λ x.
          (x.applied ≡ true → Admitted q x)
          × (x.manifest_ok ≡ mo)
          × Chosen (u ∷ us) x
          × (x.report ≡ report)
          × (x.fetched_parent_hashes ≡ f)
          × (x.unresolved_parent_hashes ≡ un))
        same
        (
          pulled-Admitted q mo f un report v signer es,
          refl,
          choose_lem u us report.selected_head,
          refl,
          refl,
          refl,
        )

  -- The updates that the peer sent, with the parents that it was asked for.
  abbrev pub filled : PullContext → List VillagePolicyUpdate → Filled
  filled q updates =
      fill_history_gaps updates (policy_hashes q.local_updates) q.fetch_update_by_hash 500

  -- The manifest was not fetched, or it was read and the check of manifests accepts it.
  abbrev pub ManifestFine : PullContext → Pulled → Type 0
  ManifestFine q p =
      ((q.manifest ≡ none) × (p.manifest_ok ≡ none))
      ⊎ ((m : PolicyFeedManifest) × (why : ManifestMessage) × (q.manifest ≡ some (ok m))
          × (verify_manifest_against_policy C manifest_json accepts_signature q.current_policy m
              ≡ ok (true, why))
          × (p.manifest_ok ≡ some true))

  -- Every update that was fetched and carries a signature or a key has a valid signature.
  abbrev pub MaterialFine : List VillagePolicyUpdate → Type 0
  MaterialFine us = All (λ u. has_any u ≡ true → verify_update_any C u ≡ ok true) us

  -- What holds of the decision on an update, whatever the decision is.
  pub record Settled (q : PullContext) (updates : List VillagePolicyUpdate) (p : Pulled)
      : Type 0 where
    pub manifest : ManifestFine q p
    pub report : p.report ≡ reconcile C q.local_updates (filled q updates).combined q.village_id
    pub fetched : p.fetched_parent_hashes ≡ (filled q updates).fetched
    pub unresolved : p.unresolved_parent_hashes ≡ (filled q updates).unresolved
    pub chosen : Chosen (filled q updates).combined p

  manifest_lem :
      (q : PullContext) (p : Pulled) (m : Option (Result PolicyFeedManifest))
      → q.manifest ≡ m
      → (p.manifest_ok
          ≡ check_pulled_manifest C manifest_json accepts_signature message_text q.current_policy m)
      → is_false p.manifest_ok ≡ false
      → ManifestFine q p
  unfolding check_pulled_manifest
  manifest_lem q p none em e f = inl (em, e)
  manifest_lem q p (some (raise problem)) em e f = ground (arith, e, f)
  manifest_lem q p (some (ok m)) em e f =
      elim (Result-cases
        (verify_manifest_against_policy C manifest_json accepts_signature q.current_policy m)) [
          | inl (problem, r) ↦ ground (arith, e, f, r)
          | inr ((true, why), r) ↦ inr (m, why, em, r, ground (arith, e, r))
          | inr ((false, why), r) ↦ ground (arith, e, f, r)
        ]

  checked_lem :
      (q : PullContext) (updates : List VillagePolicyUpdate) (p : Pulled)
      → pull_checked C manifest_json accepts_signature message_text q updates ≡ ok (decided p)
      → Settled q updates p × (p.applied ≡ true → Admitted q p)
  unfolding pull_checked
  checked_lem q updates p e =
      let mo =
        check_pulled_manifest C manifest_json accepts_signature message_text q.current_policy
          q.manifest in
      elim (Bool-cases (is_false mo)) [
        | inl bad ↦ ground (arith, e, bad)
        | inr fine ↦
            let (a, m, c, r, f, n) =
              decide_lem q mo _ _ (filled q updates).combined p (rw fine at e) in
            (
              record {
                manifest = manifest_lem q p q.manifest refl m (ap is_false m ∙ fine);
                report = r;
                fetched = f;
                unresolved = n;
                chosen = c;
              },
              a,
            )
      ]

  material_lem :
      (us : List VillagePolicyUpdate)
      → check_material C manifest_json accepts_signature message_text us ≡ ok none
      → MaterialFine us
  unfolding check_material
  material_lem [] e = tt
  material_lem (u ∷ us) e = elim (Bool-cases (has_any u)) [
    | inr unsigned ↦ (λ h. ground (arith, unsigned, h), material_lem us (rw unsigned at e))
    | inl signed ↦
        let (good, eg, rest) = bind-returns (verify_update_any C u) _ (rw signed at e) in
        elim (Bool-cases good) [
          | inl g ↦ (λ h. ground (arith, eg, g), material_lem us (ground (arith, rest, g)))
          | inr g ↦ ground (arith, rest, g)
        ]
  ]

  pulled_from :
      (q : PullContext) (updates : List VillagePolicyUpdate) (p : Pulled) (bad : Option String)
      → pull_from C manifest_json accepts_signature message_text q updates bad ≡ ok (decided p)
      → (bad ≡ none) × Settled q updates p × (p.applied ≡ true → Admitted q p)
  unfolding pull_from
  pulled_from q us p none e =
      let (settled, admitted) = checked_lem q us p e in (refl, settled, admitted)
  pulled_from q us p (some bad) e = cc

  -- When a pull comes to a decision, every fetched update that carries a signature or a key has a valid
  -- signature; the manifest was not fetched, or it was read and the check accepts it; the report is that
  -- of the local updates against the fetched ones with their missing parents; the update that is decided
  -- on has the hash that the report selects, or none of the updates has it and it is a latest one of
  -- them; the parents that were fetched and those that were not found are recorded; and it is applied
  -- only where that is asked for, its signers are allowed, and nothing blocks or delays it.
  pub pull-Applied :
      (q : PullContext) (updates : List VillagePolicyUpdate) (p : Pulled)
      → policy_pull C manifest_json accepts_signature message_text q updates ≡ ok (decided p)
      → MaterialFine updates × Settled q updates p × (p.applied ≡ true → Admitted q p)
  unfolding policy_pull pull_from
  pull-Applied q [] p e = cc
  pull-Applied q (u ∷ us) p e =
      let (bad, eb, rest) =
        bind-returns (check_material C manifest_json accepts_signature message_text (u ∷ us)) _ e in
      let (fine, settled, admitted) = pulled_from q (u ∷ us) p bad rest in
      (material_lem (u ∷ us) (eb ∙ ap ok fine), settled, admitted)
