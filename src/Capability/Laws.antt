-- ===== src/Capability/Laws.antt =====
-- What a manifest of capabilities says, and what two of them share.
use policy_mesh.Capability.{
  NodeRequest, build_manifest, verify_manifest_hash, body_of, common_body, with_notes, with_extra,
  hash_ok, check_compatibility, stable_of, stable_features, features_of, elements, features, set_of,
  storage_modes, reconciliation_modes,
}
use policy_mesh.Json.{
  Elements, dict, Entries, Value, str, entry, no_entries, get, flag, truth, list,
}
use policy_mesh.Json.Dict.{set_key, without-set_key, get-set_key_self, get-set_key_ne}
use policy_mesh.Json.Compare.{eq_value}
use policy_mesh.Json.Read.{get_texts, texts_in, texts_of}
use policy_mesh.Update.{ok}
use policy_mesh.Prelude.{
  eq_refl, contains-minus, inr, minus, contains-both, inl, Bool-cases, both, contains-add, Option,
  arith, contains-sort_texts, none, some, ◌∙◌, refl, [], ap, not, false, true, ◌&&◌, ◌∷◌, truthy,
  ◌==◌, ◌≡◌, Bool, List, String, contains,
}

contains-set_of : (k : String) (xs : List String) → contains k (set_of xs) ≡ contains k xs
unfolding set_of contains
contains-set_of k [] = refl
contains-set_of k (x ∷ xs) = ground (arith, contains-add x k (set_of xs), contains-set_of k xs)

contains-features :
    (f key : String) (d : Entries) → contains f (features key d) ≡ contains f (get_texts key d)
unfolding features
contains-features f key d = contains-set_of f (get_texts key d)

flag_of : (k : String) (v : Value) (d : Entries) → get k d ≡ some v → flag k d ≡ truth v
unfolding flag
flag_of k v d e = rw (flag, e) refl

get_texts_of :
    (k : String) (xs : Elements) (d : Entries)
    → get k d ≡ some (list xs)
    → get_texts k d ≡ texts_of xs
unfolding get_texts texts_in
get_texts_of k xs d e = rw (get_texts, e) refl

texts-elements : (xs : List String) → texts_of (elements xs) ≡ xs
unfolding texts_of elements
texts-elements [] = refl
texts-elements (x ∷ xs) = ap (λ z. x ∷ z) (texts-elements xs)

with_notes_lem :
    (k : String) (notes : Option String) (d : Entries)
    → ("operator_notes" == k) ≡ false
    → get k (with_notes notes d) ≡ get k d
with_notes_lem k none d a = refl
with_notes_lem k (some notes) d a = elim (Bool-cases (truthy notes)) [
  | inl e ↦ rw e (get-set_key_ne k "operator_notes" (str notes) d a)
  | inr e ↦ rw e refl
]

with_extra_lem :
    (k : String) (extra d : Entries)
    → ("extensions" == k) ≡ false
    → get k (with_extra extra d) ≡ get k d
with_extra_lem k no_entries d b = refl
with_extra_lem k (entry j v e) d b = get-set_key_ne k "extensions" (dict (entry j v e)) d b

-- A key that is not set by the notes or the extensions has the value of the common part.
get-body_of :
    (k : String) (r : NodeRequest)
    → ("operator_notes" == k) ≡ false
    → ("extensions" == k) ≡ false
    → get k (body_of r) ≡ get k (common_body r)
unfolding body_of
get-body_of k r a b =
    with_extra_lem k r.extra (with_notes r.operator_notes (common_body r)) b
    ∙ with_notes_lem k r.operator_notes (common_body r) a

body_of-unhashed : (r : NodeRequest) → get "manifest_hash" (body_of r) ≡ none
unfolding common_body get
body_of-unhashed r = get-body_of "manifest_hash" r refl refl

body_of-stable :
    (r : NodeRequest)
    → get "stable_features" (body_of r)
      ≡ some (list (elements (stable_of r.storage_mode r.reconciliation_mode)))
unfolding common_body get
body_of-stable r = get-body_of "stable_features" r refl refl

module _ (hash_manifest_body : Entries → String) where
  verify_lem :
      (d : Entries)
      → get "manifest_hash" d ≡ none
      → truthy (hash_manifest_body d) ≡ true
      → verify_manifest_hash hash_manifest_body
          (set_key "manifest_hash" (str (hash_manifest_body d)) d)
        ≡ (true, hash_ok)
  unfolding verify_manifest_hash flag truth eq_value
  verify_lem d absent h = ground (
    arith,
    flag_of "manifest_hash" (str (hash_manifest_body d))
        (set_key "manifest_hash" (str (hash_manifest_body d)) d)
        (get-set_key_self "manifest_hash" (str (hash_manifest_body d)) d),
    get-set_key_self "manifest_hash" (str (hash_manifest_body d)) d,
    without-set_key "manifest_hash" (str (hash_manifest_body d)) d absent,
    h,
    eq_refl (hash_manifest_body d),
  )

  features_lem :
      (r : NodeRequest) (f : String)
      → contains f (
          features "stable_features"
            (set_key "manifest_hash" (str (hash_manifest_body (body_of r))) (body_of r)))
        ≡ (contains f stable_features
            && contains f (features_of r.storage_mode r.reconciliation_mode))
  unfolding features get_texts texts_in stable_of
  features_lem r f =
      let m = set_key "manifest_hash" (str (hash_manifest_body (body_of r))) (body_of r) in
      let listed = stable_of r.storage_mode r.reconciliation_mode in
      let named : get "stable_features" m ≡ some (list (elements listed)) =
        get-set_key_ne "stable_features" "manifest_hash" (str (hash_manifest_body (body_of r)))
          (body_of r) refl
        ∙ body_of-stable r in
      contains-features f "stable_features" m
      ∙ ap (contains f)
          (get_texts_of "stable_features" (elements listed) m named ∙ texts-elements listed)
      ∙ contains-sort_texts f
          (both stable_features (features_of r.storage_mode r.reconciliation_mode))
      ∙ contains-both f stable_features (features_of r.storage_mode r.reconciliation_mode)

  -- A manifest that is built of known modes verifies, and names exactly the stable features that the
  -- node has.
  pub build_manifest_lem :
      (r : NodeRequest)
      → (truthy (hash_manifest_body (body_of r)) ≡ true)
      → (contains r.storage_mode storage_modes ≡ true)
      → (contains r.reconciliation_mode reconciliation_modes ≡ true)
      → (m : Entries) × (build_manifest hash_manifest_body r ≡ ok m)
        × (verify_manifest_hash hash_manifest_body m ≡ (true, hash_ok))
        × ((f : String)
            → contains f (features "stable_features" m) ≡ (
                contains f stable_features
                && contains f (features_of r.storage_mode r.reconciliation_mode)))
  unfolding build_manifest
  build_manifest_lem r h s t =
      let m = set_key "manifest_hash" (str (hash_manifest_body (body_of r))) (body_of r) in
      (m, rw (s, t) refl, verify_lem (body_of r) (body_of-unhashed r) h, λ f. features_lem r f)

-- A report lists each stable feature where it belongs: those of both manifests as shared, and those of
-- only one of them as that side's.
pub check_compatibility_lem :
    (local peer : Entries) (strict : Bool) (f : String)
    → let r = check_compatibility local peer strict in
      let mine = contains f (get_texts "stable_features" local) in
      let theirs = contains f (get_texts "stable_features" peer) in
      (contains f r.shared_stable_features ≡ (mine && theirs))
      × (contains f r.local_only_features ≡ (mine && not theirs))
      × (contains f r.peer_only_features ≡ (theirs && not mine))
unfolding check_compatibility features
check_compatibility_lem local peer strict f = (
  contains-sort_texts f (both _ _)
      ∙ contains-both f _ _
      ∙ rw (contains-features f "stable_features" local, contains-features f "stable_features" peer)
          refl,
  contains-sort_texts f (minus _ _)
      ∙ contains-minus f _ _
      ∙ rw (contains-features f "stable_features" local, contains-features f "stable_features" peer)
          refl,
  contains-sort_texts f (minus _ _)
      ∙ contains-minus f _ _
      ∙ rw (contains-features f "stable_features" local, contains-features f "stable_features" peer)
          refl,
)
