-- ===== src/TrustAnchors/Standing.antt =====
-- The keys that are active after a list of entries: those whose last entry registers them.
-- Whether the entry registers, rotates or revokes the key.
use policy_mesh.TrustAnchors.{
  registers, put, Active, TrustAnchorEntry, activate, apply_entry, apply_to, delete,
}
use policy_mesh.Prelude.{
  inr, eq_iff, inl, refl, arith, not, truthy, ◌==◌, Bool-cases, [], false, if◌then◌else◌, map, none,
  some, ◌&&◌, ◌||◌, Bool, Distinct, List, Option, ◌∷◌, ◌≡◌, String, contains,
}
use mathlib.Core.Path.{subst}

unfoldable mentions_hash : String → TrustAnchorEntry → Option String → Bool
mentions_hash k e none = false
mentions_hash k e (some h) = truthy h && (h == k && (registers e || e.action == "revoke"))

unfoldable pub mentions : String → TrustAnchorEntry → Bool
unfolding mentions_hash
mentions k e = mentions_hash k e e.anchor_key_hash

unfoldable pub any_mentions : String → List TrustAnchorEntry → Bool
any_mentions k [] = false
any_mentions k (e ∷ es) = mentions k e || any_mentions k es

-- The last entry of the key, where it registers it.
unfoldable pub standing : String → List TrustAnchorEntry → Option TrustAnchorEntry
standing k [] = none
standing k (e ∷ es) =
    let later = standing k es in
    if any_mentions k es then later else if mentions k e && registers e then some e else none

unfoldable pub get : String → Active → Option TrustAnchorEntry
get k [] = none
get k ((j, f) ∷ rest) = let later = get k rest in if j == k then some f else later

get-put :
    (k h : String) (e : TrustAnchorEntry) (a : Active)
    → get k (put h e a) ≡ (if h == k then some e else get k a)
unfolding get put
get-put k h e [] = refl
get-put k h e ((j, f) ∷ rest) =
    ground (arith, get-put k h e rest, eq_iff j h, eq_iff j k, eq_iff h k)

get-delete : (k h : String) (a : Active) → get k (delete h a) ≡ (if h == k then none else get k a)
unfolding get delete
get-delete k h [] = ground arith
get-delete k h ((j, f) ∷ rest) =
    ground (arith, get-delete k h rest, eq_iff j h, eq_iff j k, eq_iff h k)

get-apply_to :
    (k : String) (a : Active) (e : TrustAnchorEntry) (o : Option String)
    → get k (apply_to a e o)
      ≡ (if mentions_hash k e o then (if registers e then some e else none) else get k a)
unfolding apply_to mentions_hash
get-apply_to k a e none = refl
get-apply_to k a e (some h) = ground (arith, get-put k h e a, get-delete k h a)

get-apply :
    (k : String) (a : Active) (e : TrustAnchorEntry)
    → get k (apply_entry a e)
      ≡ (if mentions k e then (if registers e then some e else none) else get k a)
unfolding apply_entry apply_to mentions
get-apply k a e = get-apply_to k a e e.anchor_key_hash

pub get-activate :
    (k : String) (a : Active) (es : List TrustAnchorEntry)
    → get k (activate a es) ≡ (if any_mentions k es then standing k es else get k a)
unfolding activate standing any_mentions
get-activate k a [] = refl
get-activate k a (e ∷ es) = ground (arith, get-activate k (apply_entry a e) es, get-apply k a e)

standing_unmentioned :
    (k : String) (es : List TrustAnchorEntry) → any_mentions k es ≡ false → standing k es ≡ none
unfolding standing any_mentions
standing_unmentioned k [] h = refl
standing_unmentioned k (e ∷ es) h = ground (arith, h)

-- What is active under the key, after the entries, is what stands.
pub get-standing :
    (k : String) (es : List TrustAnchorEntry) → get k (activate [] es) ≡ standing k es
unfolding get
get-standing k es = ground (arith, get-activate k [] es, standing_unmentioned k es)

abbrev pub keys : Active → List String
keys = map (λ x. x.0)

contains-put :
    (k h : String) (e : TrustAnchorEntry) (a : Active)
    → contains k (keys (put h e a)) ≡ (contains k (keys a) || h == k)
unfolding put contains
contains-put k h e [] = ground arith
contains-put k h e ((j, f) ∷ rest) = ground (arith, contains-put k h e rest, eq_iff j h)

contains-delete :
    (k h : String) (a : Active)
    → contains k (keys (delete h a)) ≡ (contains k (keys a) && not (h == k))
unfolding delete contains
contains-delete k h [] = refl
contains-delete k h ((j, f) ∷ rest) =
    ground (arith, contains-delete k h rest, eq_iff j h, eq_iff j k, eq_iff h k)

put-Distinct :
    (h : String) (e : TrustAnchorEntry) (a : Active)
    → Distinct (keys a)
    → Distinct (keys (put h e a))
unfolding put contains
put-Distinct h e [] d = (refl, tt)
put-Distinct h e ((j, f) ∷ rest) d = elim (Bool-cases (j == h)) [
  | inl same ↦ rw same (subst (λ x. contains x (keys rest) ≡ false) ((eq_iff j h).0 same) d.0, d.1)
  | inr other ↦ rw other (
    ground (arith, contains-put j h e rest, d.0, eq_iff h j, eq_iff j h),
    put-Distinct h e rest d.1,
  )
]

delete-Distinct : (h : String) (a : Active) → Distinct (keys a) → Distinct (keys (delete h a))
unfolding delete
delete-Distinct h [] d = tt
delete-Distinct h ((j, f) ∷ rest) d = elim (Bool-cases (j == h)) [
  | inl same ↦ rw same (delete-Distinct h rest d.1)
  | inr other ↦ rw other (rw (contains-delete j h rest, d.0) refl, delete-Distinct h rest d.1)
]

apply-Distinct :
    (a : Active) (e : TrustAnchorEntry) (o : Option String)
    → Distinct (keys a)
    → Distinct (keys (apply_to a e o))
unfolding apply_to
apply-Distinct a e none d = d
apply-Distinct a e (some h) d = elim (Bool-cases (not (truthy h))) [
  | inl blank ↦ rw blank d
  | inr full ↦ rw full (elim (Bool-cases (registers e)) [
    | inl r ↦ rw r (put-Distinct h e a d)
    | inr r ↦ rw r (elim (Bool-cases (e.action == "revoke")) [
      | inl v ↦ rw v (delete-Distinct h a d)
      | inr v ↦ rw v d
    ])
  ])
]

pub activate-Distinct :
    (a : Active) (es : List TrustAnchorEntry) → Distinct (keys a) → Distinct (keys (activate a es))
unfolding activate apply_entry
activate-Distinct a [] d = d
activate-Distinct a (e ∷ es) d =
    activate-Distinct (apply_entry a e) es (apply-Distinct a e e.anchor_key_hash d)
