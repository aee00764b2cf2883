-- ===== src/Claims/Store/Consistent.antt =====
-- links/store.py: what holds of a store, and that ingestion keeps it.
use policy_mesh.Prelude.{
  append-Distinct, Distinct, inr, append_assoc, inl, Bool-cases, sym, refl, ◌∙◌, ap, append-nil,
  false, [], true, Bool, ℕ, ◌∷◌, ◌≡◌, All, map, ◌++◌, List,
}
use policy_mesh.Claims.{verify_bundle, BundlePayload, ClaimBundle}
use policy_mesh.Update.{bind-returns, ok, Crypto}
use policy_mesh.Claims.Store.{
  ingest_verified, Ingest, bundle_exists, ClaimStore, ingest_bundle, keep_bundle, rows_of, ClaimRow,
}
use mathlib.Core.Path.{subst}

unfoldable pub rows_of_all : List ClaimBundle → List ClaimRow
rows_of_all [] = []
rows_of_all (b ∷ bs) = rows_of b ++ rows_of_all bs

pub ok-injective {ℓ} : {T : Type ℓ} {x y : T} → ok x ≡ ok y → x ≡ y
ok-injective e = cc

ids_append :
    (bs : List ClaimBundle) (b : ClaimBundle)
    → map (λ x. x.bundle_id) (bs ++ (b ∷ [])) ≡ map (λ x. x.bundle_id) bs ++ (b.bundle_id ∷ [])
ids_append [] b = refl
ids_append (c ∷ bs) b = ap (◌∷◌ c.bundle_id) (ids_append bs b)

rows_append :
    (bs : List ClaimBundle) (b : ClaimBundle)
    → rows_of_all (bs ++ (b ∷ [])) ≡ rows_of_all bs ++ rows_of b
unfolding rows_of_all
rows_append [] b = append-nil _
rows_append (c ∷ bs) b =
    ap (λ r. rows_of c ++ r) (rows_append bs b)
    ∙ sym (append_assoc (rows_of c) (rows_of_all bs) (rows_of b))

module _ (P : ClaimBundle → Type 0) where
  All-snoc : (bs : List ClaimBundle) (b : ClaimBundle) → All P bs → P b → All P (bs ++ (b ∷ []))
  All-snoc [] b a p = (p, tt)
  All-snoc (c ∷ bs) b a p = (a.0, All-snoc bs b a.1 p)

module _ (C : Crypto) (bundle_json : BundlePayload → List ℕ)
    (accepts_signature : List ℕ → Bool) where
  abbrev pub Verifies : ClaimBundle → Type 0
  Verifies b = verify_bundle C bundle_json accepts_signature b ≡ ok true

  pub record Consistent (s : ClaimStore) : Type 0 where
    pub once : Distinct (map (λ b. b.bundle_id) s.bundles)
    pub genuine : All Verifies s.bundles
    pub indexed : s.rows ≡ rows_of_all s.bundles

  pub keep-Consistent :
      (s : ClaimStore) (b : ClaimBundle)
      → Consistent s
      → Verifies b
      → bundle_exists b.bundle_id s ≡ false
      → Consistent (keep_bundle s b)
  unfolding keep_bundle
  keep-Consistent s b c v e = record {
    once = subst Distinct (sym (ids_append s.bundles b)) (append-Distinct b.bundle_id _ e c.once);
    genuine = All-snoc Verifies s.bundles b c.genuine v;
    indexed = ap (λ r. r ++ rows_of b) c.indexed ∙ sym (rows_append s.bundles b);
  }

  verified-Consistent :
      (s : ClaimStore) (b : ClaimBundle) (v : Bool)
      → Consistent s
      → verify_bundle C bundle_json accepts_signature b ≡ ok v
      → Consistent (ingest_verified s b v).0
  verified-Consistent s b false c e = c
  verified-Consistent s b true c e = elim (Bool-cases (bundle_exists b.bundle_id s)) [
    | inl x ↦ rw x c
    | inr x ↦ rw x (keep-Consistent s b c e x)
  ]

  pub ingest-Consistent :
      (s : ClaimStore) (b : ClaimBundle) (after : ClaimStore × Ingest)
      → Consistent s
      → ingest_bundle C bundle_json accepts_signature s b ≡ ok after
      → Consistent after.0
  unfolding ingest_bundle
  ingest-Consistent s b after c e =
      let (v, ev, last) = bind-returns (verify_bundle C bundle_json accepts_signature b) _ e in
      subst (λ x. Consistent x.0) (ok-injective last) (verified-Consistent s b v c ev)
