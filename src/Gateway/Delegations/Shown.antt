-- ===== src/Gateway/Delegations/Shown.antt =====
-- A delegation that has been created is shown to its user, and to nobody else.
use delego.Base.{
  String, true, false, Option, none, some, List, [], ◌∷◌, ◌++◌, str_eq, eq_iff, ◌≡◌, ◌≢◌, refl, sym,
  ◌∙◌, ap, subst, inl, inr, Bool-cases,
}
use delego.Base.Maps.{lookup, lookup-insert}
use delego.Base.Int.{pos}
use delego.Utils.Amounts.{read_digits, to_string}
use delego.Gateway.Delegations.{
  Tables, find_one, policy_key, limit_key, level_key, CreatePayload, DelegationView, Answer,
  created, shown, delegation_not_found, active, is_too_large, by_id, owned_by, find_owned,
  authenticated, show_delegation, formatted,
}
use delego.Gateway.Delegations.Handlers.{
  new_delegation, new_policy, new_limit, new_level, with_rows, is_owner, create_with, create_for,
  create_delegation_handler, get_delegation_handler, show_owned,
}

find_one-append_new :
    {A : Type 0} (key_of : A → String) (id : String) (rows : List A) (new : A)
    → find_one key_of id rows ≡ none
    → key_of new ≡ id
    → find_one key_of id (rows ++ (new ∷ [])) ≡ some new
unfolding find_one
find_one-append_new key_of id [] new missing same =
    let eq = (eq_iff (key_of new) id).1 same in rw eq refl
find_one-append_new key_of id (row ∷ rows) new missing same =
    elim (Bool-cases (str_eq (key_of row) id)) [
      | inl here ↦ absurd (cc)
      | inr other ↦ rw other (find_one-append_new key_of id rows new (rw other at missing) same)
    ]

-- A user with a name that is not empty.
pub authenticated_named :
    (user : String) (next : String → Answer × Tables) (t : Tables)
    → user ≢ ""
    → authenticated (some user) next t ≡ next user
authenticated_named user next t ne = elim (Bool-cases (str_eq user "")) [
  | inl empty ↦ absurd (ne ((eq_iff user "").0 empty))
  | inr named ↦ rw named refl
]

-- What is shown of a new delegation.
abbrev pub view_of : (id user wallet : String) → CreatePayload → DelegationView
view_of id user wallet body = record {
  id = id;
  user_id = user;
  agent_id = body.agent_id;
  wallet_id = some wallet;
  status = active;
  max_per_transaction = to_string (pos (read_digits 0 body.max_per_transaction));
  max_total = to_string (pos (read_digits 0 body.max_total));
  allowed_merchants = body.allowed_merchants;
  allowed_categories = body.allowed_categories;
  expires_at = body.expires_at;
  permission_level = body.permission_level;
}

create_with-created :
    (id user wallet : String) (body : CreatePayload) (t : Tables)
    → is_owner user (lookup wallet t.wallets) ≡ true
    → is_too_large body.max_per_transaction ≡ false
    → is_too_large body.max_total ≡ false
    → create_with id user wallet body t
      ≡ (created (view_of id user wallet body), with_rows id user wallet body t)
unfolding to_string
create_with-created id user wallet body t own small small' = rw (own, small, small') refl

created_row :
    (id user wallet : String) (body : CreatePayload) (t : Tables)
    → lookup id (with_rows id user wallet body t).delegations ≡ some (new_delegation user body)
created_row id user wallet body t =
    lookup-insert t.delegations id id _ ∙ (let same = (eq_iff id id).1 refl in rw same refl)

show-new :
    (id user wallet : String) (body : CreatePayload) (t : Tables)
    → find_one policy_key id t.policies ≡ none
    → find_one limit_key id t.spend_limits ≡ none
    → find_one level_key id t.levels ≡ none
    → show_delegation (with_rows id user wallet body t) id (new_delegation user body)
      ≡ shown (view_of id user wallet body)
unfolding show_delegation to_string
show-new id user wallet body t no_policy no_limit no_level =
    let policy = find_one-append_new policy_key id t.policies (new_policy id body) no_policy refl in
    let limit =
      find_one-append_new limit_key id t.spend_limits (new_limit id user wallet body) no_limit
        refl in
    let level = find_one-append_new level_key id t.levels (new_level id body) no_level refl in
    λ i. formatted id (new_delegation user body) (policy i) (limit i) (level i)

own_shown :
    (id user : String) (body : CreatePayload) (t : Tables)
    → show_owned id (owned_by user (some (new_delegation user body))) t
      ≡ show_delegation t id (new_delegation user body)
own_shown id user body t = let same = (eq_iff user user).1 refl in rw same refl

foreign_hidden :
    (id user other : String) (body : CreatePayload) (t : Tables)
    → other ≢ user
    → show_owned id (owned_by other (some (new_delegation user body))) t ≡ delegation_not_found
foreign_hidden id user other body t ne = elim (Bool-cases (str_eq user other)) [
  | inl same ↦ absurd (ne (sym ((eq_iff user other).0 same)))
  | inr different ↦ rw different refl
]

-- A user, as the token names him, creates a delegation for one of his wallets, with amounts that
-- fit their columns and under an id that no row has yet. The answer is the new delegation: active,
-- of the user, the agent and the wallet, with the amounts as numerals without leading zeros, and
-- the merchants, the categories, the expiry and the level of the body. From then on the user is
-- shown just this under every spelling of the id, while any other user is told that there is no
-- such delegation.
pub create-get :
    (uuid : String → Option String) (id asked user other wallet : String) (body : CreatePayload)
    (t : Tables)
    → uuid asked ≡ some id
    → uuid body.wallet_id ≡ some wallet
    → user ≢ ""
    → other ≢ ""
    → other ≢ user
    → is_owner user (lookup wallet t.wallets) ≡ true
    → is_too_large body.max_per_transaction ≡ false
    → is_too_large body.max_total ≡ false
    → find_one policy_key id t.policies ≡ none
    → find_one limit_key id t.spend_limits ≡ none
    → find_one level_key id t.levels ≡ none
    → let (answer, t') = create_delegation_handler uuid id (some user) (some body) t in
      (answer ≡ created (view_of id user wallet body))
      × ((get_delegation_handler uuid asked (some user) t').0 ≡ shown (view_of id user wallet body))
      × ((get_delegation_handler uuid asked (some other) t').0 ≡ delegation_not_found)
unfolding create_delegation_handler get_delegation_handler find_owned
create-get uuid id asked user other wallet body t taken taken' named named' ne own small small'
      no_policy no_limit no_level =
    let P : Answer × Tables → Type 0 = λ r.
      (r.0 ≡ created (view_of id user wallet body))
      × ((get_delegation_handler uuid asked (some user) r.1).0
          ≡ shown (view_of id user wallet body))
      × ((get_delegation_handler uuid asked (some other) r.1).0 ≡ delegation_not_found) in
    let create : String → Answer × Tables = λ u. create_for uuid id u (some body) t in
    let t' = with_rows id user wallet body t in
    let get_key : String → String → Answer × Tables =
      λ u key. (show_owned key (owned_by u (lookup key t'.delegations)) t', t') in
    let get : String → Answer × Tables = λ u. by_id (uuid asked) (get_key u) t' in
    let row = created_row id user wallet body t in
    let got : (u : String)
        → u ≢ ""
        → (get_delegation_handler uuid asked (some u) t').0
          ≡ show_owned id (owned_by u (some (new_delegation user body))) t' =
      λ u u_named.
        ap (λ r. r.0) (authenticated_named u get t' u_named)
        ∙ ap (λ k. (by_id k (get_key u) t').0) taken
        ∙ ap (λ o. show_owned id (owned_by u o) t') row in
    subst P
      (sym (
        authenticated_named user create t named
        ∙ ap (λ w. by_id w (λ w. create_with id user w body t) t) taken'
        ∙ create_with-created id user wallet body t own small small'))
      (
        refl,
        got user named
            ∙ own_shown id user body t'
            ∙ show-new id user wallet body t no_policy no_limit no_level,
        got other named' ∙ foreign_hidden id user other body t' ne,
      )
