-- ===== src/Gateway/Delegations.antt =====
-- apps/backend/gateway/routes/delegations.ts and middleware/delegationOwnership.ts: the delegations of
-- a user, over the tables of PostgreSQL. A handler gets the user of the token, if there is one, and
-- the body that ajv has accepted, if it has. The ids of rows are UUIDs: `uuid` is an argument, the
-- spelling that the database gives back for an id, and none for a text that it does not take as one,
-- for which the query throws. The id of a token's user is spelled so. An amount that is too large for
-- its column makes the write throw; other errors of the database are left out.
pub mod Handlers
pub mod Isolation
pub mod Requests
pub mod Shown
pub mod Revoked
mod Tests
use delego.Base.{
  ℕ, String, Bool, true, false, not, ◌&&◌, ◌||◌, Option, none, some, List, [], ◌∷◌, ◌++◌,
  if◌then◌else◌, str_eq, ltb,
}
use delego.Base.Maps.{Map, lookup, insert}
use delego.Base.Text.{Text}
use delego.Utils.Amounts.{read_digits, decimal}

pub data Status : Type 0 where
  pending active paused revoked expired : Status

pub data Level : Type 0 where
  view_only auto_approve signer admin : Level

-- A row of `delegations`, but for its id, which is its key. The label and the expiry are those of the
-- column `policy`; the times of creation and update, which Sequelize keeps, are left out.
pub record Delegation : Type 0 where
  pub user_id : String
  pub agent_id : String
  pub status : Status
  pub label : Option String
  pub expires_at : Option String

pub record DelegationPolicy : Type 0 where
  pub delegation_id : String
  pub allowed_merchants : List String
  pub allowed_categories : List String

pub record SpendLimit : Type 0 where
  pub user_id : String
  pub wallet_id : Option String
  pub delegation_id : String
  pub limit_per_transaction : Option ℕ
  pub limit_lifetime : Option ℕ

pub record PermissionLevel : Type 0 where
  pub delegation_id : String
  pub level : Level
  pub can_sign : Bool
  pub can_mutate_policy : Bool

-- The wallets are their ids with their users. A query for one row gives the first.
pub record Tables : Type 0 where
  pub wallets : Map String
  pub delegations : Map Delegation
  pub policies : List DelegationPolicy
  pub spend_limits : List SpendLimit
  pub levels : List PermissionLevel

module _ {A : Type 0} (key_of : A → String) where
  -- `findOne({ where: { delegationId } })`
  unfoldable pub find_one : String → List A → Option A
  find_one id [] = none
  find_one id (row ∷ rows) = if str_eq (key_of row) id then some row else find_one id rows

  -- `update` of that row.
  unfoldable pub update_one : String → (A → A) → List A → List A
  update_one id change [] = []
  update_one id change (row ∷ rows) =
      if str_eq (key_of row) id then change row ∷ rows else row ∷ update_one id change rows

abbrev pub policy_key : DelegationPolicy → String
policy_key row = row.delegation_id

abbrev pub limit_key : SpendLimit → String
limit_key row = row.delegation_id

abbrev pub level_key : PermissionLevel → String
level_key row = row.delegation_id

-- `CreateDelegationPolicyPayload`
pub record CreatePayload : Type 0 where
  pub agent_id : String
  pub wallet_id : String
  pub label : String
  pub max_per_transaction : Text
  pub max_total : Text
  pub allowed_merchants : List String
  pub allowed_categories : List String
  pub expires_at : Option String
  pub permission_level : Level

pub record PolicyPayload : Type 0 where
  pub max_per_transaction : Option Text
  pub max_total : Option Text
  pub allowed_merchants : Option (List String)
  pub allowed_categories : Option (List String)
  pub expires_at : Option String

-- `UpdateDelegationPayload`
pub record UpdatePayload : Type 0 where
  pub status : Option Status
  pub policy : Option PolicyPayload

-- What `formatDelegationResponse` gives.
pub record DelegationView : Type 0 where
  pub id : String
  pub user_id : String
  pub agent_id : String
  pub wallet_id : Option String
  pub status : Status
  pub max_per_transaction : Text
  pub max_total : Text
  pub allowed_merchants : List String
  pub allowed_categories : List String
  pub expires_at : Option String
  pub permission_level : Level

-- `DataTypes.BIGINT`
abbrev pub max_bigint : ℕ
max_bigint = 9223372036854775807

abbrev pub is_too_large : Text → Bool
is_too_large amount = ltb max_bigint (read_digits 0 amount)

-- The answers: 401, 400, 404 for the wallet and for the delegation, 403, 500, and the good ones.
pub data Answer : Type 0 where
  unauthorized invalid_body wallet_not_found delegation_not_found forbidden internal_error : Answer
  created shown : DelegationView → Answer
  revoked_delegation : String → Answer

-- `String(limit || 0)`
abbrev pub printed : Option ℕ → Text
printed none = decimal 0 0
printed (some n) = decimal n n

abbrev pub format_delegation_response :
    String → Delegation → DelegationPolicy → SpendLimit → PermissionLevel → DelegationView
format_delegation_response id d p s l = record {
  id = id;
  user_id = d.user_id;
  agent_id = d.agent_id;
  wallet_id = s.wallet_id;
  status = d.status;
  max_per_transaction = printed s.limit_per_transaction;
  max_total = printed s.limit_lifetime;
  allowed_merchants = p.allowed_merchants;
  allowed_categories = p.allowed_categories;
  expires_at = d.expires_at;
  permission_level = l.level;
}

-- A row that is missing is `undefined`, and reading it throws.
abbrev pub formatted :
    String
    → Delegation
    → Option DelegationPolicy
    → Option SpendLimit
    → Option PermissionLevel
    → Answer
formatted id d (some p) (some s) (some l) = shown (format_delegation_response id d p s l)
formatted id d none s l = internal_error
formatted id d (some p) none l = internal_error
formatted id d (some p) (some s) none = internal_error

-- The rows that go with a delegation, and its response.
unfoldable pub show_delegation : Tables → String → Delegation → Answer
unfolding find_one decimal
show_delegation t id d =
    formatted id d (find_one policy_key id t.policies) (find_one limit_key id t.spend_limits)
      (find_one level_key id t.levels)

-- `findOne({ where: { id, userId } })`
abbrev pub owned_by : String → Option Delegation → Option Delegation
owned_by user none = none
owned_by user (some d) = if str_eq d.user_id user then some d else none

unfoldable pub find_owned : (id user : String) → Tables → Option Delegation
unfolding lookup
find_owned id user t = owned_by user (lookup id t.delegations)

-- A query for an id; what it throws is answered with 500.
abbrev pub by_id : (key : Option String) → (String → Answer × Tables) → Tables → Answer × Tables
by_id none next t = (internal_error, t)
by_id (some key) next t = next key

-- `if (!auth.userId)`
abbrev pub authenticated : Option String → (String → Answer × Tables) → Tables → Answer × Tables
authenticated none next t = (unauthorized, t)
authenticated (some user) next t = if str_eq user "" then (unauthorized, t) else next user

abbrev pub can_sign : Level → Bool
can_sign signer = true
can_sign admin = true
can_sign _ = false

abbrev pub can_mutate_policy : Level → Bool
can_mutate_policy admin = true
can_mutate_policy _ = false
