-- ===== src/Villages/Issuers/Laws.antt =====
-- What allowing and blocking an issuer does to every issuer.
use policy_mesh.Prelude.{
  contains-remove_ne, contains-remove_self, eq_iff, eq_refl, not, refl, [], ◌||◌, contains-append,
  ◌&&◌, ◌∷◌, arith, false, true, Distinct, is_empty, ◌≡◌, ◌≢◌, List, String, add, contains,
}
use policy_mesh.Villages.Issuers.{add_issuer_allow, add_issuer_block, issuer_allowed}
use policy_mesh.Villages.{VillagePolicy}

contains-add_ne : (k j : String) (xs : List String) → k ≢ j → contains j (add k xs) ≡ contains j xs
unfolding contains add
contains-add_ne k j xs h = ground (arith, contains-append j xs (k ∷ []), eq_iff k j)

contains-add_self : (k : String) (xs : List String) → contains k (add k xs) ≡ true
unfolding contains add
contains-add_self k xs = ground (arith, contains-append k xs (k ∷ []), eq_refl k)

empty-add : (k : String) (xs : List String) → is_empty (add k xs) ≡ false
unfolding add contains
empty-add k [] = refl
empty-add k (x ∷ xs) = ground arith

contains-empty : (j : String) (xs : List String) → is_empty xs ≡ true → contains j xs ≡ false
unfolding contains
contains-empty j [] h = refl
contains-empty j (x ∷ xs) h = cc

-- Allowing an issuer that is on the blocklist once at most lets it in. Any other issuer is let in
-- as before, where the village had an allowlist; where it had none, the others are shut out.
pub allow_lem :
    (policy : VillagePolicy) (k j : String)
    → Distinct policy.issuer_blocklist
    → (issuer_allowed (add_issuer_allow policy k) k ≡ true)
      × (k ≢ j
          → issuer_allowed (add_issuer_allow policy k) j ≡ (
              issuer_allowed policy j
              && (policy.require_issuer_allowlist || not (is_empty policy.issuer_allowlist))))
unfolding issuer_allowed add_issuer_allow
allow_lem policy k j d = (
  rw
      (
        contains-remove_self k policy.issuer_blocklist d,
        contains-add_self k policy.issuer_allowlist,
        empty-add k policy.issuer_allowlist,
      )
      (ground arith),
  λ h.
      rw
        (
          contains-remove_ne k j policy.issuer_blocklist h,
          contains-add_ne k j policy.issuer_allowlist h,
          empty-add k policy.issuer_allowlist,
        )
        (ground (arith, contains-empty j policy.issuer_allowlist)),
)

-- Blocking an issuer shuts it out, whatever the allowlist holds, and changes nothing for another
-- issuer.
pub block_lem :
    (policy : VillagePolicy) (k j : String)
    → (issuer_allowed (add_issuer_block policy k) k ≡ false)
      × (k ≢ j → issuer_allowed (add_issuer_block policy k) j ≡ issuer_allowed policy j)
unfolding issuer_allowed add_issuer_block
block_lem policy k j = (
  rw (contains-add_self k policy.issuer_blocklist) refl,
  λ h. rw (contains-add_ne k j policy.issuer_blocklist h) refl,
)
