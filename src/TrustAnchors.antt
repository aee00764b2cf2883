-- ===== src/TrustAnchors.antt =====
-- links/trust_anchors.py: the entries of a village's trust anchors, and the anchor in force. Entries
-- are what the village's directory holds.
pub mod Latest
pub mod Standing
pub mod Signed
use policy_mesh.Update.{SignatureEntry}
use policy_mesh.Prelude.{
  text_le, truthy, ◌&&◌, nat_eq, not, [], if◌then◌else◌, ◌||◌, ltb, map, none, some, ℕ, ◌==◌, ◌∷◌,
  Bool, List, Option, String,
}

pub record TrustAnchorEntry : Type 0 where
  pub village_id : String
  pub created_at : ℕ
  pub actor : Option String
  pub action : String
  pub anchor_id : String
  pub anchor_public_key : Option String
  pub anchor_key_hash : Option String
  pub previous_anchor_key_hash : Option String
  pub reason : Option String
  pub signature_alg : String
  pub signatures : List SignatureEntry

-- `x.anchor_key_hash or ""`
abbrev or_blank : Option String → String
or_blank none = ""
or_blank (some h) = h

-- `out.sort(...)`, by the time and then the hash
le_entry : TrustAnchorEntry → TrustAnchorEntry → Bool
le_entry e f =
    ltb e.created_at f.created_at
    || (nat_eq e.created_at f.created_at
        && text_le (or_blank e.anchor_key_hash) (or_blank f.anchor_key_hash))

insert_entry : TrustAnchorEntry → List TrustAnchorEntry → List TrustAnchorEntry
insert_entry e [] = e ∷ []
insert_entry e (f ∷ fs) =
    let rest = insert_entry e fs in if le_entry e f then e ∷ f ∷ fs else f ∷ rest

unfoldable pub sort_entries : List TrustAnchorEntry → List TrustAnchorEntry
unfolding insert_entry le_entry
sort_entries [] = []
sort_entries (e ∷ es) = insert_entry e (sort_entries es)

-- The dict of active anchors, by their key hashes.
abbrev pub Active : Type 0
Active = List (String × TrustAnchorEntry)

-- `active[h] = e`
unfoldable pub put : String → TrustAnchorEntry → Active → Active
put h e [] = (h, e) ∷ []
put h e ((j, f) ∷ rest) =
    let later = put h e rest in if j == h then (h, e) ∷ rest else (j, f) ∷ later

-- `del active[h]`, where it is there
unfoldable pub delete : String → Active → Active
delete h [] = []
delete h ((j, f) ∷ rest) = let later = delete h rest in if j == h then later else (j, f) ∷ later

abbrev pub registers : TrustAnchorEntry → Bool
registers e = e.action == "register" || e.action == "rotate"

unfoldable pub apply_to : Active → TrustAnchorEntry → Option String → Active
apply_to active e none = active
apply_to active e (some h) =
    if not (truthy h)
    then active
    else if registers e
    then put h e active
    else if e.action == "revoke"
    then delete h active
    else active

unfoldable pub apply_entry : Active → TrustAnchorEntry → Active
unfolding apply_to
apply_entry active e = apply_to active e e.anchor_key_hash

-- the loop over the entries
unfoldable pub activate : Active → List TrustAnchorEntry → Active
activate active [] = active
activate active (e ∷ es) = activate (apply_entry active e) es

-- the first one of the latest
unfoldable pub newest_from : TrustAnchorEntry → List TrustAnchorEntry → TrustAnchorEntry
newest_from best [] = best
newest_from best (e ∷ es) = newest_from (if ltb best.created_at e.created_at then e else best) es

unfoldable pub newest : List TrustAnchorEntry → Option TrustAnchorEntry
newest [] = none
newest (e ∷ es) = some (newest_from e es)

unfoldable pub latest_active_anchor : List TrustAnchorEntry → Option TrustAnchorEntry
unfolding newest
latest_active_anchor entries = newest (map (λ x. x.1) (activate [] (sort_entries entries)))
