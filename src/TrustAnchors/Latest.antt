-- ===== src/TrustAnchors/Latest.antt =====
-- The anchor in force is the latest active one.
use policy_mesh.TrustAnchors.{
  activate, sort_entries, Active, TrustAnchorEntry, latest_active_anchor, newest, newest_from,
}
use policy_mesh.Prelude.{
  sym, ap, ◌∙◌, eq_iff, inr, ltb, refl, ◌==◌, Bool-cases, [], eq_refl, inl, true, arith, some, ℕ,
  ◌∷◌, ◌⊎◌, false, map, none, Distinct, contains, ◌≡◌, ◌≤◌, List, String,
}
use policy_mesh.TrustAnchors.Standing.{get-standing, activate-Distinct, get, standing, keys}
use mathlib.Core.Path.{subst}
use mathlib.Core.Option.{some-injective}

contains-get :
    (k : String) (a : Active) (e : TrustAnchorEntry) → get k a ≡ some e → contains k (keys a) ≡ true
unfolding get contains
contains-get k [] e w = cc
contains-get k ((j, f) ∷ rest) e w = ground (arith, contains-get k rest e, w)

get-rest :
    (k j : String) (f e : TrustAnchorEntry) (rest : Active)
    → contains j (keys rest) ≡ false
    → get k rest ≡ some e
    → get k ((j, f) ∷ rest) ≡ some e
unfolding get
get-rest k j f e rest absent w = elim (Bool-cases (j == k)) [
  | inl same ↦ cc (
    subst (λ x. contains x (keys rest) ≡ false) ((eq_iff j k).0 same) absent,
    contains-get k rest e w,
  )
  | inr other ↦ rw other w
]

get-first : (j : String) (f : TrustAnchorEntry) (rest : Active) → get j ((j, f) ∷ rest) ≡ some f
unfolding get
get-first j f rest = rw eq_refl refl

-- The entry is no earlier than any active one, and is the given one or an active one.
Top : TrustAnchorEntry → TrustAnchorEntry → Active → Type 0
Top m best a =
    (best.created_at ≤ m.created_at)
    × ((k : String) (e : TrustAnchorEntry) → get k a ≡ some e → e.created_at ≤ m.created_at)
    × ((m ≡ best) ⊎ ((k : String) × (get k a ≡ some m)))

get-cons_le :
    (k j : String) (f e : TrustAnchorEntry) (rest : Active) (n : ℕ)
    → f.created_at ≤ n
    → (get k rest ≡ some e → e.created_at ≤ n)
    → get k ((j, f) ∷ rest) ≡ some e
    → e.created_at ≤ n
unfolding get
get-cons_le k j f e rest n low later w = elim (Bool-cases (j == k)) [
  | inl same ↦ subst (λ x. x.created_at ≤ n) (some-injective f e (rw same at w)) low
  | inr other ↦ later (rw other at w)
]

cons-Top :
    (m best c : TrustAnchorEntry) (j : String) (f : TrustAnchorEntry) (rest : Active)
    → contains j (keys rest) ≡ false
    → Top m c rest
    → best.created_at ≤ c.created_at
    → f.created_at ≤ c.created_at
    → ((c ≡ best) ⊎ (c ≡ f))
    → Top m best ((j, f) ∷ rest)
unfolding Top
cons-Top m best c j f rest absent (low, all, from) b v choice = (
  omega arith,
  λ k e. get-cons_le k j f e rest m.created_at (omega arith) (all k e),
  elim from [
    | inl p ↦ elim choice [
      | inl q ↦ inl (p ∙ q)
      | inr q ↦ inr (j, get-first j f rest ∙ ap some (sym q) ∙ ap some (sym p))
    ]
    | inr (k, w) ↦ inr (k, get-rest k j f m rest absent w)
  ],
)

get-nil_le : (k : String) (e : TrustAnchorEntry) (n : ℕ) → get k [] ≡ some e → e.created_at ≤ n
unfolding get
get-nil_le k e n w = cc

newest_from_later :
    (best e : TrustAnchorEntry) (es : List TrustAnchorEntry)
    → ltb best.created_at e.created_at ≡ true
    → newest_from best (e ∷ es) ≡ newest_from e es
unfolding newest_from
newest_from_later best e es h = rw h refl

newest_from_earlier :
    (best e : TrustAnchorEntry) (es : List TrustAnchorEntry)
    → ltb best.created_at e.created_at ≡ false
    → newest_from best (e ∷ es) ≡ newest_from best es
unfolding newest_from
newest_from_earlier best e es h = rw h refl

newest_from-Top :
    (best : TrustAnchorEntry) (a : Active)
    → Distinct (keys a)
    → Top (newest_from best (map (λ x. x.1) a)) best a
unfolding Top newest_from
newest_from-Top best [] d = (omega arith, λ k e. get-nil_le k e best.created_at, inl refl)
newest_from-Top best ((j, f) ∷ rest) d = elim (Bool-cases (ltb best.created_at f.created_at)) [
  | inl later ↦
      subst (λ m. Top m best ((j, f) ∷ rest))
        (sym (newest_from_later best f (map (λ x. x.1) rest) later))
        (cons-Top _ best f j f rest d.0 (newest_from-Top f rest d.1) (ground (arith, later))
          (omega arith) (inr refl))
  | inr earlier ↦
      subst (λ m. Top m best ((j, f) ∷ rest))
        (sym (newest_from_earlier best f (map (λ x. x.1) rest) earlier))
        (cons-Top _ best best j f rest d.0 (newest_from-Top best rest d.1) (omega arith)
          (ground (arith, earlier)) (inl refl))
]

Newest : TrustAnchorEntry → Active → Type 0
Newest m a =
    ((k : String) × (get k a ≡ some m))
    × ((k : String) (e : TrustAnchorEntry) → get k a ≡ some e → e.created_at ≤ m.created_at)

newest_from-Newest :
    (j : String) (f : TrustAnchorEntry) (rest : Active)
    → Distinct (keys ((j, f) ∷ rest))
    → Newest (newest_from f (map (λ x. x.1) rest)) ((j, f) ∷ rest)
unfolding Newest Top
newest_from-Newest j f rest d =
    let (low, all, from) =
      cons-Top _ f f j f rest d.0 (newest_from-Top f rest d.1) (omega arith) (omega arith)
        (inl refl) in
    (elim from [ inl p ↦ (j, get-first j f rest ∙ ap some (sym p)) | inr at_key ↦ at_key ], all)

newest-Active :
    (a : Active)
    → Distinct (keys a)
    → (newest (map (λ x. x.1) a) ≡ none → (k : String) → get k a ≡ none)
      × ((m : TrustAnchorEntry) → newest (map (λ x. x.1) a) ≡ some m → Newest m a)
unfolding newest get
newest-Active [] d = (λ _ k. refl, λ m w. cc)
newest-Active ((j, f) ∷ rest) d = (
  λ w. cc,
  λ m w.
      subst (λ x. Newest x ((j, f) ∷ rest)) (some-injective _ m w) (newest_from-Newest j f rest d),
)

-- The anchor in force, of entries in any order: there is none where no key stands, and otherwise it
-- is the entry of a key that stands, with the greatest time among them. A key stands by its last
-- entry in the order of time, where that registers or rotates it.
pub latest_active_lem :
    (entries : List TrustAnchorEntry)
    → (latest_active_anchor entries ≡ none
        → (k : String) → standing k (sort_entries entries) ≡ none)
      × ((m : TrustAnchorEntry)
          → latest_active_anchor entries ≡ some m
          → ((k : String) × (standing k (sort_entries entries) ≡ some m))
            × ((k : String) (e : TrustAnchorEntry)
                → standing k (sort_entries entries) ≡ some e
                → e.created_at ≤ m.created_at))
unfolding latest_active_anchor Newest
latest_active_lem entries =
    let es = sort_entries entries in
    let (empty, full) = newest-Active (activate [] es) (activate-Distinct [] es tt) in
    (
      λ w k. sym (get-standing k es) ∙ empty w k,
      λ m w.
          let ((k, v), all) = full m w in
          ((k, sym (get-standing k es) ∙ v), λ h e s. all h e (get-standing h es ∙ s)),
    )
