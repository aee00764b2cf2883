-- ===== src/Feed/Policy.antt =====
-- links/policy_feed.py: the signatures that a village's policy wants of an update. A quorum's numbers
-- are whole, and a text is a number if it is digits with a sign or none before them; a requirement that
-- is no dict of a role and a number, which pydantic refuses, is a validation error.
pub mod Answer
pub mod Safe
pub mod Unsigned
use policy_mesh.Update.Weighted.{verify_update_weighted_quorum, WeightMessage}
use policy_mesh.Json.{
  no_entries, dict, bool, element, flag, entry, no_elements, list, str, Elements, get, int, Entries,
  Value,
}
use policy_mesh.Update.{
  validation_error, value_error, type_error, verify_update_any, raise, ok, QuorumRequirement, ◌>>=◌,
  Result, Crypto, VillagePolicyUpdate,
}
use policy_mesh.Norms.Rules.{parse_int}
use policy_mesh.Prelude.{
  codes, false, truthy?, ◌==◌, true, ◌||◌, is_empty, ◌∷◌, [], if◌then◌else◌, none, not, Bool,
  String, some, List, Option,
}
use policy_mesh.Json.Read.{get_texts, get_dict, get_true, texts_in}
use policy_mesh.Update.Roles.{verify_update_role_based_quorum, RoleMessage}
use policy_mesh.Prelude.Int.{pos, ℤ}
use policy_mesh.Update.Quorum.{verify_update_quorum, QuorumMessage}

-- The sentence that goes with the answer.
pub data FeedMessage : Type 0 where
  by_weight : WeightMessage → FeedMessage
  by_roles : RoleMessage → FeedMessage
  by_number : QuorumMessage → FeedMessage
  signature_invalid : FeedMessage
  feed_ok : FeedMessage

-- `str(quorum_cfg.get("model") or "m_of_n")`; a model that is no text is none of the known ones
unfoldable pub model_of : Option Value → String
model_of (some (str s)) = s
model_of _ = "m_of_n"

-- `int(v)` and `float(v)`, for a whole number
unfoldable pub number : Value → Result ℤ
unfolding parse_int codes
number (int n) = ok n
number (bool b) = ok (if b then pos 1 else pos 0)
number (str s) = elim (parse_int (codes s)) [ none ↦ raise value_error | some n ↦ ok n ]
number _ = raise type_error

-- `v or 0.0`
abbrev pub or_nought : Option Value → Value
or_nought none = int (pos 0)
or_nought (some v) = v

-- `a or b or 1`
abbrev pub or_one : Option Value → Option Value → Value
or_one (some a) b = a
or_one none (some b) = b
or_one none none = int (pos 1)

-- `{str(k): float(v) for k, v in weights.items()}`
unfoldable pub read_weights : Entries → Result (List (String × ℤ))
unfolding number
read_weights no_entries = ok []
read_weights (entry k v rest) = do w ← number v; ws ← read_weights rest; ok ((k, w) ∷ ws)

-- `{str(k): list(v) for k, v in roles.items()}`
unfoldable pub read_roles : Entries → List (String × List String)
unfolding texts_in
read_roles no_entries = []
read_roles (entry k v rest) = (k, texts_in v) ∷ read_roles rest

-- an `int` field of a pydantic model, which takes a Boolean and a text of digits too
unfoldable pub lax_int : Value → Result ℤ
unfolding parse_int codes
lax_int (int n) = ok n
lax_int (bool b) = ok (if b then pos 1 else pos 0)
lax_int (str s) = elim (parse_int (codes s)) [ none ↦ raise validation_error | some n ↦ ok n ]
lax_int _ = raise validation_error

-- `QuorumRequirement.model_validate(r)`
unfoldable pub requirement : Option Value → Option Value → Result QuorumRequirement
unfolding lax_int
requirement (some (str role)) (some v) = do
  n ← lax_int v
  ok (record { role = role; min_signers = n })
requirement _ _ = raise validation_error

unfoldable pub read_requirements : Elements → Result (List QuorumRequirement)
unfolding get requirement
read_requirements no_elements = ok []
read_requirements (element (dict d) rest) = do
  r ← requirement (get "role" d) (get "min_signers" d)
  rs ← read_requirements rest
  ok (r ∷ rs)
read_requirements (element _ rest) = raise validation_error

-- `quorum_cfg.get("role_requirements") or []`: a text or a dict that is not empty is iterated too, and
-- its first item is a text, which is no requirement; a number or True is not iterable.
unfoldable pub requirements_in : Option Value → Result (List QuorumRequirement)
unfolding read_requirements
requirements_in none = ok []
requirements_in (some (list xs)) = read_requirements xs
requirements_in (some (str s)) = raise validation_error
requirements_in (some (dict d)) = raise validation_error
requirements_in (some _) = raise type_error

-- `allowlist if allowlist else None`
abbrev pub or_none : List String → Option (List String)
or_none [] = none
or_none (a ∷ rest) = some (a ∷ rest)

-- `bool(u.signatures) or bool(u.public_key) or bool(u.signature)`
abbrev pub has_any : VillagePolicyUpdate → Bool
has_any u = not (is_empty u.signatures) || (truthy? u.public_key || truthy? u.signature)

module _ (C : Crypto) (u : VillagePolicyUpdate) (allowlist : List String) where
  unfoldable pub weighted_quorum : Entries → Entries → Result (Bool × FeedMessage)
  unfolding read_weights number get_true get_dict
  weighted_quorum policy quorum_cfg = do
    weights ← read_weights (get_dict "policy_signer_weights" policy)
    required_weight ← number (or_nought (get_true "threshold_weight" quorum_cfg))
    answer ← verify_update_weighted_quorum C u weights required_weight (or_none allowlist)
    ok (answer.0, by_weight answer.1)

  unfoldable pub role_quorum : Entries → Entries → Result (Bool × FeedMessage)
  unfolding read_roles requirements_in get_true get_dict
  role_quorum policy quorum_cfg = do
    let roles_map = read_roles (get_dict "policy_signer_roles" policy)
    reqs ← requirements_in (get_true "role_requirements" quorum_cfg)
    answer ← verify_update_role_based_quorum C u roles_map reqs (or_none allowlist)
    ok (answer.0, by_roles answer.1)

  unfoldable pub number_quorum : Entries → Entries → Result (Bool × FeedMessage)
  unfolding number get_true
  number_quorum policy quorum_cfg = do
    threshold_m ← number (
        or_one (get_true "threshold_m" quorum_cfg) (get_true "policy_signature_threshold_m" policy))
    answer ← verify_update_quorum C u threshold_m (or_none allowlist)
    ok (answer.0, by_number answer.1)

  -- the part where signatures are optional
  unfoldable pub optional_signatures : Result (Bool × FeedMessage)
  optional_signatures =
      if not (has_any u)
      then ok (true, feed_ok)
      else if not (is_empty allowlist)
      then (do
        answer ← verify_update_quorum C u (pos 1) (some allowlist)
        ok (answer.0, by_number answer.1))
      else do
        good ← verify_update_any C u
        ok (if good then (true, feed_ok) else (false, signature_invalid))

module _ (C : Crypto) where
  unfoldable pub evaluate_policy_quorum :
      Entries → VillagePolicyUpdate → Result (Bool × FeedMessage)
  unfolding model_of get_true get_dict get_texts flag weighted_quorum role_quorum number_quorum
      optional_signatures
  evaluate_policy_quorum policy u =
      let require_sig = flag "require_policy_signature" policy in
      let allowlist = get_texts "policy_signer_allowlist" policy in
      let quorum_cfg = get_dict "policy_quorum" policy in
      let model = model_of (get_true "model" quorum_cfg) in
      if require_sig
      then if model == "weighted"
        then weighted_quorum C u allowlist policy quorum_cfg
        else if model == "role_based"
        then role_quorum C u allowlist policy quorum_cfg
        else number_quorum C u allowlist policy quorum_cfg
      else optional_signatures C u allowlist

  unfoldable pub signer_allowed : Entries → VillagePolicyUpdate → Result (Bool × FeedMessage)
  unfolding evaluate_policy_quorum
  signer_allowed policy u = evaluate_policy_quorum policy u
