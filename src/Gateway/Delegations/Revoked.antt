-- ===== src/Gateway/Delegations/Revoked.antt =====
-- What the handlers that write answer for a delegation that is not there, or not the user's.
use delego.Base.{
  String, false, Option, none, some, str_eq, eq_iff, ◌≡◌, ◌≢◌, refl, ap, ◌∙◌, Bool-cases, inl, inr,
  if◌then◌else◌, arith,
}
use delego.Base.Maps.{lookup}
use delego.Gateway.Delegations.{
  Delegation, Tables, UpdatePayload, Answer, forbidden, delegation_not_found, find_owned, by_id,
}
use delego.Gateway.Delegations.Handlers.{
  checked, check_delegation_ownership, guarded, update_for, update_delegation_handler, revoke_found,
  revoke_delegation_handler, answered, verified, verify_key, verify_delegation_ownership,
}
use delego.Gateway.Delegations.Isolation.{IsForeign, checked-IsForeign}
use delego.Gateway.Delegations.Shown.{authenticated_named}

-- What the handlers that write answer to someone who is not the owner: 404 for a delegation whose id
-- is asked for in another spelling than its own, and otherwise 403.
abbrev pub refusal : (id key : String) → Option Delegation → Answer
refusal id key none = forbidden
refusal id key (some d) = if str_eq key id then forbidden else delegation_not_found

-- What the middleware answers: 404 when there is no delegation, and 403 when it is another user's.
abbrev pub middleware_refusal : Option Delegation → Answer
middleware_refusal none = delegation_not_found
middleware_refusal (some d) = forbidden

not_empty : (s : String) → s ≢ "" → str_eq s "" ≡ false
not_empty s ne = ground (arith, eq_iff s "")

guarded-refusal :
    (user id key : String) (o : Option Delegation) (t : Tables) (next : Answer × Tables)
    → IsForeign user o
    → guarded id (checked user id key o) t next ≡ (refusal id key o, t)
guarded-refusal user id key none t next foreign = let same = (eq_iff id id).1 refl in rw same refl
guarded-refusal user id key (some d) t next foreign =
    let owned = checked-IsForeign user id key (some d) foreign in
    elim (Bool-cases (str_eq key id)) [
      | inl same ↦ rw (owned, same) refl
      | inr other ↦ rw (owned, other) refl
    ]

verified-refusal :
    (user id key : String) (o : Option Delegation)
    → IsForeign user o
    → verified (checked user id key o) o ≡ answered (middleware_refusal o)
verified-refusal user id key none foreign = refl
verified-refusal user id key (some d) foreign =
    rw (checked-IsForeign user id key (some d) foreign) refl

-- To a user who asks for a delegation that is not his, or that is not there, with an id that the
-- database takes, updating and revoking answer the same and change nothing: 403 when there is no such
-- delegation and when its id is spelled as it is stored, and 404 when it is there under another
-- spelling. The middleware answers 404 when there is none, and 403 otherwise.
pub write-refused :
    (uuid : String → Option String) (id key user : String) (body : Option UpdatePayload)
    (t : Tables)
    → uuid id ≡ some key
    → id ≢ ""
    → user ≢ ""
    → IsForeign user (lookup key t.delegations)
    → (update_delegation_handler uuid id (some user) body t
        ≡ (refusal id key (lookup key t.delegations), t))
      × (revoke_delegation_handler uuid id (some user) t
          ≡ (refusal id key (lookup key t.delegations), t))
      × (verify_delegation_ownership uuid id (some user) t
          ≡ answered (middleware_refusal (lookup key t.delegations)))
unfolding update_delegation_handler revoke_delegation_handler verify_delegation_ownership
    check_delegation_ownership
write-refused uuid id key user body t taken present named foreign =
    let o = lookup key t.delegations in
    let update : String → String → Answer × Tables =
      λ u k. guarded id (check_delegation_ownership u id k t) t (update_for k u body t) in
    let revoke : String → String → Answer × Tables = λ u k.
      guarded id (check_delegation_ownership u id k t) t (revoke_found k (find_owned k u t) t) in
    (
      authenticated_named user (λ u. by_id (uuid id) (update u) t) t named
          ∙ ap (λ k. by_id k (update user) t) taken
          ∙ guarded-refusal user id key o t _ foreign,
      authenticated_named user (λ u. by_id (uuid id) (revoke u) t) t named
          ∙ ap (λ k. by_id k (revoke user) t) taken
          ∙ guarded-refusal user id key o t _ foreign,
      rw (not_empty user named, not_empty id present)
          (ap (λ k. verify_key user id k t) taken ∙ verified-refusal user id key o foreign),
    )
