-- ===== src/Feed/Order.antt =====
-- links/policy_feed.py: the order of a feed, by the time of creation and then by the policy hash.
-- `sort` is Python's stable sort; texts are compared by their code points.
pub mod Latest
use policy_mesh.Prelude.{text_le, ◌&&◌, nat_eq, ◌||◌, [], if◌then◌else◌, ltb, Bool, ◌∷◌, List}
use policy_mesh.Update.{VillagePolicyUpdate}

-- `(u.created_at, u.policy_hash) <= (v.created_at, v.policy_hash)`
unfoldable pub le_key : VillagePolicyUpdate → VillagePolicyUpdate → Bool
le_key u v =
    ltb u.created_at v.created_at
    || (nat_eq u.created_at v.created_at && text_le u.policy_hash v.policy_hash)

unfoldable pub insert : VillagePolicyUpdate → List VillagePolicyUpdate → List VillagePolicyUpdate
insert u [] = u ∷ []
insert u (v ∷ vs) = let rest = insert u vs in if le_key u v then u ∷ v ∷ vs else v ∷ rest

unfoldable pub sort : List VillagePolicyUpdate → List VillagePolicyUpdate
unfolding insert le_key
sort [] = []
sort (u ∷ us) = insert u (sort us)
