-- ===== src/Gateway/Delegations/Tests.antt =====
-- Runs of the delegation handlers, and concrete instances of their theorems.
use delego.Base.{
  String, true, Option, none, some, List, [], ◌∷◌, All, ◌≡◌, ◌≢◌, refl, sym, eq_iff, str_eq,
  if◌then◌else◌, false, arith,
}
use delego.Base.Maps.{lookup}
use delego.Base.Text.{text}
use delego.Utils.Amounts.{decimal, read_digits, to_string}
use delego.Gateway.Delegations.{
  Delegation, Tables, Status, active, revoked, admin, find_one, policy_key, limit_key, level_key,
  CreatePayload, DelegationView, unauthorized, created, shown, forbidden, delegation_not_found,
  wallet_not_found, revoked_delegation, internal_error, is_too_large,
}
use delego.Gateway.Delegations.Handlers.{
  create_delegation_handler, get_delegation_handler, update_delegation_handler,
  revoke_delegation_handler, verify_delegation_ownership, answered, is_owner,
}
use delego.Gateway.Delegations.Isolation.{Same, IsForeign}
use delego.Gateway.Delegations.Requests.{
  Request, create, fetch, update, revoke, perform_all, ByOther, perform_all-Same,
}
use delego.Gateway.Delegations.Shown.{view_of, create-get}
use delego.Gateway.Delegations.Revoked.{refusal, middleware_refusal, write-refused}

abbrev empty : Tables
empty = record {
  wallets = ("w1", "ann") ∷ [];
  delegations = [];
  policies = [];
  spend_limits = [];
  levels = [];
}

abbrev body : CreatePayload
body = record {
  agent_id = "a1";
  wallet_id = "w1";
  label = "shoes";
  max_per_transaction = text "0100";
  max_total = text "500";
  allowed_merchants = [];
  allowed_categories = [];
  expires_at = none;
  permission_level = admin;
}

abbrev view : Status → DelegationView
view status = record {
  id = "d1";
  user_id = "ann";
  agent_id = "a1";
  wallet_id = some "w1";
  status = status;
  max_per_transaction = text "100";
  max_total = text "500";
  allowed_merchants = [];
  allowed_categories = [];
  expires_at = none;
  permission_level = admin;
}

-- "D1" is another spelling of "d1", and "?" is no id.
abbrev uuid : String → Option String
uuid id = if str_eq id "?" then none else if str_eq id "D1" then some "d1" else some id

abbrev with_one : Tables
with_one = (create_delegation_handler uuid "d1" (some "ann") (some body) empty).1

run_create :
    (create_delegation_handler uuid "d1" (some "ann") (some body) empty).0 ≡ created (view active)
unfolding create_delegation_handler decimal
run_create = refl

run_no_wallet :
    create_delegation_handler uuid "d1" (some "bob") (some body) empty ≡ (wallet_not_found, empty)
unfolding create_delegation_handler
run_no_wallet = refl

run_nobody : revoke_delegation_handler uuid "d1" none empty ≡ (unauthorized, empty)
unfolding revoke_delegation_handler
run_nobody = refl

run_revoke :
    let (answer, t) = revoke_delegation_handler uuid "d1" (some "ann") with_one in
    (answer ≡ revoked_delegation "d1")
    × ((get_delegation_handler uuid "d1" (some "ann") t).0 ≡ shown (view revoked))
unfolding revoke_delegation_handler get_delegation_handler create_delegation_handler
run_revoke = (refl, refl)

-- A status that is sent makes a revoked delegation active again.
run_active_again :
    let (_, t) = revoke_delegation_handler uuid "d1" (some "ann") with_one in
    (update_delegation_handler uuid "d1"
      (some "ann")
      (some (record { status = some active; policy = none }))
      t).0
    ≡ shown (view active)
unfolding revoke_delegation_handler update_delegation_handler create_delegation_handler
run_active_again = refl

run_verify :
    verify_delegation_ownership uuid "d2" (some "ann") with_one ≡ answered delegation_not_found
unfolding verify_delegation_ownership create_delegation_handler
run_verify = refl

run_no_id : get_delegation_handler uuid "?" (some "ann") with_one ≡ (internal_error, with_one)
unfolding get_delegation_handler create_delegation_handler
run_no_id = refl

run_too_large :
    create_delegation_handler uuid "d1"
      (some "ann")
      (some (record body { max_total = text "9223372036854775808" }))
      empty
    ≡ (internal_error, empty)
unfolding create_delegation_handler
run_too_large = refl

names_differ : ◌≢◌ {A = String} "bob" "ann"
names_differ = ground (arith, eq_iff "bob" "ann")

ids_differ : ◌≢◌ {A = String} "d1" "d2"
ids_differ = ground (arith, eq_iff "d1" "d2")

ann_named : ◌≢◌ {A = String} "ann" ""
ann_named = cc

bob_named : ◌≢◌ {A = String} "bob" ""
bob_named = cc

bob_is_other : ◌≢◌ {A = Option String} (some "bob") (some "ann")
bob_is_other = λ h. names_differ (cc)

abbrev row : Delegation
row = record {
  user_id = "ann";
  agent_id = "a1";
  status = active;
  label = some "shoes";
  expires_at = none;
}

row_held : lookup "d1" with_one.delegations ≡ some row
unfolding create_delegation_handler lookup
row_held = refl

abbrev requests : List Request
requests =
    revoke "d1" (some "bob")
    ∷ update "d1" (some "bob") (some (record { status = some revoked; policy = none }))
    ∷ create "d2" (some "bob") (some body)
    ∷ fetch "d1" none
    ∷ []

by_bob : All (ByOther "ann" "d1") requests
unfolding ByOther
by_bob = (bob_is_other, (bob_is_other, ((bob_is_other, ids_differ), ((λ h. absurd (cc)), tt))))

perform_all-Same_example : Same "d1" with_one (perform_all uuid requests with_one)
perform_all-Same_example =
    perform_all-Same uuid "ann" "d1" row requests with_one row_held refl by_bob

wallet_owned : is_owner "ann" (lookup "w1" empty.wallets) ≡ true
unfolding lookup
wallet_owned = refl

no_rows :
    (find_one policy_key "d1" empty.policies ≡ none)
    × (find_one limit_key "d1" empty.spend_limits ≡ none)
    × (find_one level_key "d1" empty.levels ≡ none)
unfolding find_one
no_rows = (refl, refl, refl)

shown_view : view_of "d1" "ann" "w1" body ≡ view active
unfolding to_string read_digits
shown_view = refl

amounts_fit :
    (is_too_large body.max_per_transaction ≡ false) × (is_too_large body.max_total ≡ false)
unfolding read_digits
amounts_fit = (refl, refl)

create-get_example :
    let (answer, t') = create_delegation_handler uuid "d1" (some "ann") (some body) empty in
    (answer ≡ created (view_of "d1" "ann" "w1" body))
    × ((get_delegation_handler uuid "D1" (some "ann") t').0 ≡ shown (view_of "d1" "ann" "w1" body))
    × ((get_delegation_handler uuid "D1" (some "bob") t').0 ≡ delegation_not_found)
create-get_example =
    create-get uuid "d1" "D1" "ann" "bob" "w1" body empty refl refl ann_named bob_named names_differ
      wallet_owned amounts_fit.0 amounts_fit.1 no_rows.0 no_rows.1 no_rows.2

not_bobs : IsForeign "bob" (lookup "d1" with_one.delegations)
unfolding create_delegation_handler lookup
not_bobs = λ same. names_differ (sym same)

id_present : ◌≢◌ {A = String} "D1" ""
id_present = cc

write-refused_example :
    (update_delegation_handler uuid "D1" (some "bob") none with_one
      ≡ (refusal "D1" "d1" (lookup "d1" with_one.delegations), with_one))
    × (revoke_delegation_handler uuid "D1" (some "bob") with_one
        ≡ (refusal "D1" "d1" (lookup "d1" with_one.delegations), with_one))
    × (verify_delegation_ownership uuid "D1" (some "bob") with_one
        ≡ answered (middleware_refusal (lookup "d1" with_one.delegations)))
write-refused_example =
    write-refused uuid "D1" "d1" "bob" none with_one refl id_present bob_named not_bobs

-- 404 where the middleware answers 403, and 403 where it answers 404.
refusals :
    (refusal "D1" "d1" (some row) ≡ delegation_not_found)
    × (middleware_refusal (some row) ≡ forbidden)
    × (refusal "d9" "d9" none ≡ forbidden)
    × (middleware_refusal none ≡ delegation_not_found)
refusals = (refl, refl, refl, refl)
