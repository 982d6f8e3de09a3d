-- ===== src/Gateway/Delegations/Handlers.antt =====
-- apps/backend/gateway/routes/delegations.ts: the handlers.
use delego.Base.{
  ℕ, String, Bool, false, not, ◌||◌, Option, none, some, [], ◌∷◌, ◌++◌, if◌then◌else◌, str_eq,
}
use delego.Base.Maps.{lookup, insert}
use delego.Base.Text.{Text}
use delego.Utils.Amounts.{read_digits}
use delego.Gateway.Delegations.{
  unauthorized, Status, active, revoked, Delegation, DelegationPolicy, SpendLimit, PermissionLevel,
  Tables, update_one, policy_key, limit_key, CreatePayload, PolicyPayload, UpdatePayload, Answer,
  invalid_body, wallet_not_found, delegation_not_found, forbidden, internal_error, is_too_large,
  by_id, find_one, created, revoked_delegation, show_delegation, format_delegation_response,
  find_owned, authenticated, can_sign, can_mutate_policy,
}

-- The rows that `createDelegationHandler` writes, in one transaction.
abbrev pub new_delegation : (user : String) → CreatePayload → Delegation
new_delegation user body = record {
  user_id = user;
  agent_id = body.agent_id;
  status = active;
  label = some body.label;
  expires_at = body.expires_at;
}

abbrev pub new_policy : (id : String) → CreatePayload → DelegationPolicy
new_policy id body = record {
  delegation_id = id;
  allowed_merchants = body.allowed_merchants;
  allowed_categories = body.allowed_categories;
}

abbrev pub new_limit : (id user wallet : String) → CreatePayload → SpendLimit
new_limit id user wallet body = record {
  user_id = user;
  wallet_id = some wallet;
  delegation_id = id;
  limit_per_transaction = some (read_digits 0 body.max_per_transaction);
  limit_lifetime = some (read_digits 0 body.max_total);
}

abbrev pub new_level : (id : String) → CreatePayload → PermissionLevel
new_level id body = record {
  delegation_id = id;
  level = body.permission_level;
  can_sign = can_sign body.permission_level;
  can_mutate_policy = can_mutate_policy body.permission_level;
}

abbrev pub with_rows : (id user wallet : String) → CreatePayload → Tables → Tables
with_rows id user wallet body t = record t {
  delegations = insert id (new_delegation user body) t.delegations;
  policies = t.policies ++ (new_policy id body ∷ []);
  spend_limits = t.spend_limits ++ (new_limit id user wallet body ∷ []);
  levels = t.levels ++ (new_level id body ∷ []);
}

-- `wallet.userId === auth.userId`, as the query has it.
abbrev pub is_owner : (user : String) → Option String → Bool
is_owner user none = false
is_owner user (some owner) = str_eq owner user

abbrev pub create_with : (id user wallet : String) → CreatePayload → Tables → Answer × Tables
create_with id user wallet body t =
    if not (is_owner user (lookup wallet t.wallets))
    then (wallet_not_found, t)
    else if is_too_large body.max_per_transaction || is_too_large body.max_total
    then (internal_error, t)
    else (
      created (
          format_delegation_response id (new_delegation user body) (new_policy id body)
            (new_limit id user wallet body) (new_level id body)),
      with_rows id user wallet body t,
    )

abbrev pub create_for :
    (uuid : String → Option String) (id user : String)
    → Option CreatePayload
    → Tables
    → Answer × Tables
create_for uuid id user none t = (invalid_body, t)
create_for uuid id user (some body) t =
    by_id (uuid body.wallet_id) (λ wallet. create_with id user wallet body t) t

-- `id` is the one that the database gives the new row.
unfoldable pub create_delegation_handler :
    (uuid : String → Option String) (id : String) (user : Option String)
    → Option CreatePayload
    → Tables
    → Answer × Tables
unfolding lookup insert read_digits
create_delegation_handler uuid id user body t =
    authenticated user (λ user. create_for uuid id user body t) t

abbrev pub show_owned : String → Option Delegation → Tables → Answer
show_owned id none t = delegation_not_found
show_owned id (some d) t = show_delegation t id d

unfoldable pub get_delegation_handler :
    (uuid : String → Option String) (id : String) (user : Option String) → Tables → Answer × Tables
unfolding find_owned show_delegation
get_delegation_handler uuid id user t =
    authenticated user
      (λ user. by_id (uuid id) (λ key. (show_owned key (find_owned key user t) t, t)) t) t

-- `checkDelegationOwnership` of the id that the database takes as `key`: for a row, the check has its
-- id, and without one the id that was asked for.
pub record DelegationOwnershipCheck : Type 0 where
  pub user_id : String
  pub delegation_id : String
  pub owned : Bool

abbrev pub checked : (user id key : String) → Option Delegation → DelegationOwnershipCheck
checked user id key none = record { user_id = user; delegation_id = id; owned = false }
checked user id key (some d) = record {
  user_id = user;
  delegation_id = key;
  owned = str_eq d.user_id user;
}

unfoldable pub check_delegation_ownership :
    (user id key : String) → Tables → DelegationOwnershipCheck
unfolding lookup
check_delegation_ownership user id key t = checked user id key (lookup key t.delegations)

-- The guard of the two handlers that write.
abbrev pub guarded :
    (id : String) → DelegationOwnershipCheck → Tables → Answer × Tables → Answer × Tables
guarded id ownership t next =
    if ownership.owned
    then next
    else if str_eq ownership.delegation_id id
    then (forbidden, t)
    else (delegation_not_found, t)

abbrev pub or_kept : {A : Type 0} → Option A → A → A
or_kept none kept = kept
or_kept (some value) kept = value

abbrev pub or_option : {A : Type 0} → Option A → Option A → Option A
or_option none kept = kept
or_option (some value) kept = some value

abbrev pub with_status : Option Status → Delegation → Delegation
with_status none d = d
with_status (some status) d = record d { status = status }

abbrev pub amount : Option Text → Option ℕ → Option ℕ
amount none kept = kept
amount (some text) kept = some (read_digits 0 text)

abbrev pub changed_policy : PolicyPayload → DelegationPolicy → DelegationPolicy
changed_policy p row = record row {
  allowed_merchants = or_kept p.allowed_merchants row.allowed_merchants;
  allowed_categories = or_kept p.allowed_categories row.allowed_categories;
}

abbrev pub changed_limit : PolicyPayload → SpendLimit → SpendLimit
changed_limit p row = record row {
  limit_per_transaction = amount p.max_per_transaction row.limit_per_transaction;
  limit_lifetime = amount p.max_total row.limit_lifetime;
}

abbrev pub changed_expiry : PolicyPayload → Delegation → Delegation
changed_expiry p d = record d { expires_at = or_option p.expires_at d.expires_at }

-- The writes of the transaction, to the delegation that it has found, with its status set.
abbrev pub apply_policy :
    (id : String) → Option PolicyPayload → Delegation → Tables → Delegation × Tables
apply_policy id none d t = (d, record t { delegations = insert id d t.delegations })
apply_policy id (some p) d t = (
  changed_expiry p d,
  record t {
    delegations = insert id (changed_expiry p d) t.delegations;
    policies = update_one policy_key id (changed_policy p) t.policies;
    spend_limits = update_one limit_key id (changed_limit p) t.spend_limits;
  },
)

abbrev pub update_rows : (id : String) → UpdatePayload → Delegation → Tables → Delegation × Tables
update_rows id body d t = apply_policy id body.policy (with_status body.status d) t

abbrev pub updated : (id : String) → Delegation × Tables → Answer × Tables
updated id (d, t) = (show_delegation t id d, t)

-- Whether the update of the spending limit, if there is one, throws.
abbrev pub is_amount_too_large : Option Text → Bool
is_amount_too_large none = false
is_amount_too_large (some amount) = is_too_large amount

abbrev pub overflows : Option PolicyPayload → Option SpendLimit → Bool
overflows none row = false
overflows (some p) none = false
overflows (some p) (some row) =
    is_amount_too_large p.max_per_transaction || is_amount_too_large p.max_total

-- The transaction is rolled back when it throws.
abbrev pub update_found :
    (id : String) → UpdatePayload → Option Delegation → Tables → Answer × Tables
update_found id body none t = (delegation_not_found, t)
update_found id body (some d) t =
    if overflows body.policy (find_one limit_key id t.spend_limits)
    then (internal_error, t)
    else updated id (update_rows id body d t)

abbrev pub update_for : (id user : String) → Option UpdatePayload → Tables → Answer × Tables
update_for id user none t = (invalid_body, t)
update_for id user (some body) t = update_found id body (find_owned id user t) t

unfoldable pub update_delegation_handler :
    (uuid : String → Option String) (id : String) (user : Option String)
    → Option UpdatePayload
    → Tables
    → Answer × Tables
unfolding check_delegation_ownership find_owned show_delegation find_one insert update_one
    read_digits
update_delegation_handler uuid id user body t =
    authenticated user
      (λ user.
        by_id (uuid id)
          (λ key.
            guarded id (check_delegation_ownership user id key t) t (update_for key user body t))
          t)
      t

abbrev pub revoke_found : (id : String) → Option Delegation → Tables → Answer × Tables
revoke_found id none t = (delegation_not_found, t)
revoke_found id (some d) t = (
  revoked_delegation id,
  record t { delegations = insert id (record d { status = revoked }) t.delegations },
)

unfoldable pub revoke_delegation_handler :
    (uuid : String → Option String) (id : String) (user : Option String) → Tables → Answer × Tables
unfolding check_delegation_ownership find_owned insert
revoke_delegation_handler uuid id user t =
    authenticated user
      (λ user.
        by_id (uuid id)
          (λ key.
            guarded id (check_delegation_ownership user id key t) t
              (revoke_found key (find_owned key user t) t))
          t)
      t

-- What `verifyDelegationOwnership` does with the id at the end of the path: it answers, or calls the
-- next handler.
pub data Verified : Type 0 where
  answered : Answer → Verified
  next_with : DelegationOwnershipCheck → Verified

abbrev pub verified : DelegationOwnershipCheck → Option Delegation → Verified
verified check none = answered delegation_not_found
verified check (some d) = if check.owned then next_with check else answered forbidden

-- What the query throws is answered with 403.
abbrev pub verify_key : (user id : String) → Option String → Tables → Verified
verify_key user id none t = answered forbidden
verify_key user id (some key) t =
    verified (check_delegation_ownership user id key t) (lookup key t.delegations)

unfoldable pub verify_delegation_ownership :
    (uuid : String → Option String) (id : String) (user : Option String) → Tables → Verified
unfolding check_delegation_ownership lookup
verify_delegation_ownership uuid id none t = answered unauthorized
verify_delegation_ownership uuid id (some user) t =
    if str_eq user ""
    then answered unauthorized
    else if str_eq id ""
    then answered delegation_not_found
    else verify_key user id (uuid id) t
