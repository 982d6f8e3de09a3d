-- ===== src/Gateway/Delegations/Requests.antt =====
-- Sequences of requests, and what those of other users do to a delegation: nothing.
use delego.Base.{
  String, Option, some, List, [], ◌∷◌, All, str_eq, eq_iff, ◌≡◌, ◌≢◌, sym, ◌∙◌, ap, subst, inl, inr,
  Bool-cases, arith,
}
use delego.Base.Maps.{lookup}
use delego.Gateway.Delegations.{Delegation, Tables, CreatePayload, UpdatePayload, Answer}
use delego.Gateway.Delegations.Handlers.{
  create_delegation_handler, get_delegation_handler, checked, check_delegation_ownership, guarded,
  update_delegation_handler, revoke_delegation_handler,
}
use delego.Gateway.Delegations.Isolation.{
  Same, IsForeign, Same-refl, checked-IsForeign, refused-Same, guarded-Same, update_for-Same,
  revoke_found-Same, create_for-Same, authenticated-Same, by_id-Same,
}

-- A request: the handler that it reaches, its user, and the body that has been accepted.
pub data Request : Type 0 where
  create : (new : String) → (user : Option String) → Option CreatePayload → Request
  fetch : (id : String) → (user : Option String) → Request
  update : (id : String) → (user : Option String) → Option UpdatePayload → Request
  revoke : (id : String) → (user : Option String) → Request

unfoldable pub perform : (uuid : String → Option String) → Request → Tables → Answer × Tables
perform uuid (create new user body) t = create_delegation_handler uuid new user body t
perform uuid (fetch id user) t = get_delegation_handler uuid id user t
perform uuid (update id user body) t = update_delegation_handler uuid id user body t
perform uuid (revoke id user) t = revoke_delegation_handler uuid id user t

unfoldable pub perform_all : (uuid : String → Option String) → List Request → Tables → Tables
perform_all uuid [] t = t
perform_all uuid (r ∷ rs) t = perform_all uuid rs (perform uuid r t).1

-- A request by someone else than the owner; the database does not give a new row an id in use.
unfoldable pub ByOther : (owner id : String) → Request → Type 0
ByOther owner id (create new user body) = (user ≢ some owner) × (id ≢ new)
ByOther owner id (fetch _ user) = user ≢ some owner
ByOther owner id (update _ user _) = user ≢ some owner
ByOther owner id (revoke _ user) = user ≢ some owner

-- The two handlers that write, on whatever id, leave a delegation alone that is not the user's.
write-Same :
    (id asked key user : String) (t : Tables) (next : Answer × Tables)
    → IsForeign user (lookup id t.delegations)
    → (id ≢ key → Same id t next.1)
    → Same id t (guarded asked (check_delegation_ownership user asked key t) t next).1
unfolding check_delegation_ownership
write-Same id asked key user t next foreign h = elim (Bool-cases (str_eq id key)) [
  | inl same ↦
      let eq = (eq_iff id key).0 same in
      refused-Same id asked (checked user asked key (lookup key t.delegations)) t next (
        checked-IsForeign user asked key (lookup key t.delegations)
          (subst (λ k. IsForeign user (lookup k t.delegations)) eq foreign))
  | inr different ↦
      guarded-Same id asked (checked user asked key (lookup key t.delegations)) t next
        (h (ground (arith, eq_iff id key)))
]

IsForeign-other :
    (owner id user : String) (d : Delegation) (t : Tables)
    → lookup id t.delegations ≡ some d
    → d.user_id ≡ owner
    → some user ≢ some owner
    → IsForeign user (lookup id t.delegations)
IsForeign-other owner id user d t held own ne =
    subst (IsForeign user) (sym held) (λ same. ne (ap some (sym same ∙ own)))

perform-Same :
    (uuid : String → Option String) (owner id : String) (d : Delegation) (r : Request) (t : Tables)
    → lookup id t.delegations ≡ some d
    → d.user_id ≡ owner
    → ByOther owner id r
    → Same id t (perform uuid r t).1
unfolding perform ByOther create_delegation_handler get_delegation_handler update_delegation_handler
    revoke_delegation_handler
perform-Same uuid owner id d (create new user body) t held own (other, fresh_id) =
    authenticated-Same id user _ t (λ u h. create_for-Same uuid id new u body t fresh_id)
perform-Same uuid owner id d (fetch target user) t held own other =
    authenticated-Same id user _ t (λ u h. by_id-Same id (uuid target) _ t (λ key. Same-refl id t))
perform-Same uuid owner id d (update target user body) t held own other =
    authenticated-Same id user _ t (λ u h. by_id-Same id (uuid target) _ t (λ key.
      write-Same id target key u t _
        (IsForeign-other owner id u d t held own (subst (λ x. x ≢ some owner) h other))
        (update_for-Same id key u body t)))
perform-Same uuid owner id d (revoke target user) t held own other =
    authenticated-Same id user _ t (λ u h. by_id-Same id (uuid target) _ t (λ key.
      write-Same id target key u t _
        (IsForeign-other owner id u d t held own (subst (λ x. x ≢ some owner) h other))
        (revoke_found-Same id key _ t)))

Same-trans : (id : String) (s t u : Tables) → Same id s t → Same id t u → Same id s u
Same-trans id s t u h k = record {
  same_delegation = k.same_delegation ∙ h.same_delegation;
  same_policy = k.same_policy ∙ h.same_policy;
  same_limit = k.same_limit ∙ h.same_limit;
  same_level = k.same_level ∙ h.same_level;
}

-- Whatever requests other users make, also with any spelling of the id of somebody's delegation, the
-- delegation of a user stays as it is, with its policy, its spending limit and its permission level:
-- whatever ids the database takes, when it gives no new row the id of this one.
pub perform_all-Same :
    (uuid : String → Option String) (owner id : String) (d : Delegation) (rs : List Request)
    (t : Tables)
    → lookup id t.delegations ≡ some d
    → d.user_id ≡ owner
    → All (ByOther owner id) rs
    → Same id t (perform_all uuid rs t)
unfolding perform_all
perform_all-Same uuid owner id d [] t held own others = Same-refl id t
perform_all-Same uuid owner id d (r ∷ rs) t held own (other, others) =
    let first = perform-Same uuid owner id d r t held own other in
    Same-trans id t _ _ first (
      perform_all-Same uuid owner id d rs (perform uuid r t).1 (first.same_delegation ∙ held) own
        others)
