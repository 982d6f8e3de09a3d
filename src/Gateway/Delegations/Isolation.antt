-- ===== src/Gateway/Delegations/Isolation.antt =====
-- What the requests of other users do to a delegation: nothing.
use delego.Base.{
  not, ◌||◌, String, false, Option, none, some, List, [], ◌∷◌, ◌++◌, str_eq, eq_iff, ◌≡◌, ◌≢◌, refl,
  sym, ◌∙◌, inl, inr, Bool-cases, arith,
}
use delego.Base.Maps.{Map, lookup, insert, lookup-insert}
use delego.Gateway.Delegations.{
  Delegation, Tables, find_one, update_one, policy_key, limit_key, level_key, CreatePayload,
  UpdatePayload, PolicyPayload, Answer, authenticated, by_id, is_too_large,
}
use delego.Gateway.Delegations.Handlers.{
  new_policy, new_limit, new_level, with_rows, is_owner, create_with, create_for, overflows,
  DelegationOwnershipCheck, checked, guarded, changed_policy, changed_limit, apply_policy,
  update_found, update_for, revoke_found,
}

module _ {A : Type 0} (key_of : A → String) where
  find_one-update_one :
      (id other : String) (change : A → A) (rows : List A)
      → ((row : A) → key_of (change row) ≡ key_of row)
      → id ≢ other
      → find_one key_of id (update_one key_of other change rows) ≡ find_one key_of id rows
  unfolding find_one update_one
  find_one-update_one id other change [] kept ne = refl
  find_one-update_one id other change (row ∷ rows) kept ne = ground (
    arith,
    kept row,
    eq_iff (key_of row) other,
    eq_iff (key_of row) id,
    eq_iff (key_of (change row)) id,
    find_one-update_one id other change rows kept ne,
  )

  pub find_one-append :
      (id : String) (rows : List A) (new : A)
      → key_of new ≢ id
      → find_one key_of id (rows ++ (new ∷ [])) ≡ find_one key_of id rows
  unfolding find_one
  find_one-append id [] new ne = ground (arith, eq_iff (key_of new) id)
  find_one-append id (row ∷ rows) new ne = ground (arith, find_one-append id rows new ne)

-- The delegation with an id, and the rows that go with it, are the same.
pub record Same (id : String) (before after : Tables) : Type 0 where
  pub same_delegation : lookup id after.delegations ≡ lookup id before.delegations
  pub same_policy : find_one policy_key id after.policies ≡ find_one policy_key id before.policies
  pub same_limit :
      find_one limit_key id after.spend_limits ≡ find_one limit_key id before.spend_limits
  pub same_level : find_one level_key id after.levels ≡ find_one level_key id before.levels

pub Same-refl : (id : String) (t : Tables) → Same id t t
Same-refl id t = record {
  same_delegation = refl;
  same_policy = refl;
  same_limit = refl;
  same_level = refl;
}

lookup-insert_other :
    (id other : String) (d : Delegation) (m : Map Delegation)
    → id ≢ other
    → lookup id (insert other d m) ≡ lookup id m
lookup-insert_other id other d m ne = lookup-insert m other id d ∙ ground (arith, eq_iff other id)

apply_policy-Same :
    (id other : String) (p : Option PolicyPayload) (d : Delegation) (t : Tables)
    → id ≢ other
    → Same id t (apply_policy other p d t).1
apply_policy-Same id other none d t ne = record {
  same_delegation = lookup-insert_other id other d t.delegations ne;
  same_policy = refl;
  same_limit = refl;
  same_level = refl;
}
apply_policy-Same id other (some p) d t ne = record {
  same_delegation = lookup-insert_other id other _ t.delegations ne;
  same_policy =
      find_one-update_one policy_key id other (changed_policy p) t.policies (λ row. refl) ne;
  same_limit =
      find_one-update_one limit_key id other (changed_limit p) t.spend_limits (λ row. refl) ne;
  same_level = refl;
}

-- A delegation, if there is one, that is not the user's.
abbrev pub IsForeign : (user : String) → Option Delegation → Type 0
IsForeign user none = Unit
IsForeign user (some d) = d.user_id ≢ user

pub checked-IsForeign :
    (user id key : String) (o : Option Delegation)
    → IsForeign user o
    → (checked user id key o).owned ≡ false
checked-IsForeign user id key none h = refl
checked-IsForeign user id key (some d) h = ground (arith, eq_iff d.user_id user)

pub refused-Same :
    (id other : String) (o : DelegationOwnershipCheck) (t : Tables) (next : Answer × Tables)
    → o.owned ≡ false
    → Same id t (guarded other o t next).1
refused-Same id other o t next not_owned =
    rw not_owned (elim (Bool-cases (str_eq o.delegation_id other)) [
      | inl same ↦ rw same (Same-refl id t)
      | inr different ↦ rw different (Same-refl id t)
    ])

pub guarded-Same :
    (id other : String) (o : DelegationOwnershipCheck) (t : Tables) (next : Answer × Tables)
    → Same id t next.1
    → Same id t (guarded other o t next).1
guarded-Same id other o t next same = elim (Bool-cases o.owned) [
  | inl own ↦ rw own same
  | inr not_owned ↦ refused-Same id other o t next not_owned
]

update_found-Same :
    (id other : String) (body : UpdatePayload) (o : Option Delegation) (t : Tables)
    → id ≢ other
    → Same id t (update_found other body o t).1
update_found-Same id other body none t ne = Same-refl id t
update_found-Same id other body (some d) t ne =
    elim (Bool-cases (overflows body.policy (find_one limit_key other t.spend_limits))) [
      | inl too_large ↦ rw too_large (Same-refl id t)
      | inr small ↦ rw small (apply_policy-Same id other body.policy _ t ne)
    ]

pub update_for-Same :
    (id other user : String) (body : Option UpdatePayload) (t : Tables)
    → id ≢ other
    → Same id t (update_for other user body t).1
update_for-Same id other user none t ne = Same-refl id t
update_for-Same id other user (some body) t ne = update_found-Same id other body _ t ne

pub revoke_found-Same :
    (id other : String) (o : Option Delegation) (t : Tables)
    → id ≢ other
    → Same id t (revoke_found other o t).1
revoke_found-Same id other none t ne = Same-refl id t
revoke_found-Same id other (some d) t ne = record {
  same_delegation = lookup-insert_other id other _ t.delegations ne;
  same_policy = refl;
  same_limit = refl;
  same_level = refl;
}

with_rows-Same :
    (id new user wallet : String) (body : CreatePayload) (t : Tables)
    → id ≢ new
    → Same id t (with_rows new user wallet body t)
with_rows-Same id new user wallet body t ne = record {
  same_delegation = lookup-insert_other id new _ t.delegations ne;
  same_policy = find_one-append policy_key id t.policies (new_policy new body) (λ h. ne (sym h));
  same_limit =
      find_one-append limit_key id t.spend_limits (new_limit new user wallet body)
        (λ h. ne (sym h));
  same_level = find_one-append level_key id t.levels (new_level new body) (λ h. ne (sym h));
}

create_with-Same :
    (id new user wallet : String) (body : CreatePayload) (t : Tables)
    → id ≢ new
    → Same id t (create_with new user wallet body t).1
create_with-Same id new user wallet body t ne =
    elim (Bool-cases (not (is_owner user (lookup wallet t.wallets)))) [
      | inl other_wallet ↦ rw other_wallet (Same-refl id t)
      | inr own ↦
          elim (Bool-cases (is_too_large body.max_per_transaction || is_too_large body.max_total)) [
            | inl too_large ↦ rw (own, too_large) (Same-refl id t)
            | inr small ↦ rw (own, small) (with_rows-Same id new user wallet body t ne)
          ]
    ]

pub by_id-Same :
    (id : String) (key : Option String) (next : String → Answer × Tables) (t : Tables)
    → ((k : String) → Same id t (next k).1)
    → Same id t (by_id key next t).1
by_id-Same id none next t h = Same-refl id t
by_id-Same id (some key) next t h = h key

pub create_for-Same :
    (uuid : String → Option String) (id new user : String) (body : Option CreatePayload)
    (t : Tables)
    → id ≢ new
    → Same id t (create_for uuid new user body t).1
create_for-Same uuid id new user none t ne = Same-refl id t
create_for-Same uuid id new user (some body) t ne =
    by_id-Same id (uuid body.wallet_id) _ t
      (λ wallet. create_with-Same id new user wallet body t ne)

pub authenticated-Same :
    (id : String) (user : Option String) (next : String → Answer × Tables) (t : Tables)
    → ((u : String) → user ≡ some u → Same id t (next u).1)
    → Same id t (authenticated user next t).1
authenticated-Same id none next t h = Same-refl id t
authenticated-Same id (some u) next t h = elim (Bool-cases (str_eq u "")) [
  | inl empty ↦ rw empty (Same-refl id t)
  | inr named ↦ rw named (h u refl)
]
