-- ===== src/Orchestrator/Messages/Once.antt =====
-- A message is claimed once (apps/backend/orchestrator/src/messaging/processed-messages.ts).
use delego.Base.{
  ℕ, suc, ◌≡◌, refl, ap, ◌∙◌, String, Bool, true, false, not, ◌&&◌, ◌||◌, List, [], ◌∷◌,
  if◌then◌else◌, str_eq, eq_iff, arith, Bool-cases, inl, inr,
}
use delego.Base.Maps.{lookup, insert, lookup-insert}
use delego.Orchestrator.Messages.{
  ProcessedMessageRecord, ProcessedMessages, has, check_and_mark, is_blank, Claim, claimed,
  check_and_mark_processed,
}

pub record Delivery : Type 0 where
  pub message_id : String
  pub consumer : String
  pub now : ℕ

abbrev pub is_claimed : Claim → Bool
is_claimed claimed = true
is_claimed _ = false

-- How many of the deliveries, in any order and to any consumers, claim a message.
unfoldable pub claims_of : String → List Delivery → ProcessedMessages → ℕ
claims_of id [] store = 0
claims_of id (d ∷ ds) store =
    let (claim, store') = check_and_mark_processed d.message_id d.consumer d.now store in
    let later = claims_of id ds store' in
    if str_eq d.message_id id && is_claimed claim then suc later else later

abbrev pub is_proper : String → Delivery → Bool
is_proper id d = str_eq d.message_id id && not (is_blank d.message_id) && not (is_blank d.consumer)

abbrev pub any_proper : String → List Delivery → Bool
any_proper id [] = false
any_proper id (d ∷ ds) = is_proper id d || any_proper id ds

abbrev pub bit : Bool → ℕ
bit true = 1
bit false = 0

has-insert :
    (id key : String) (r : ProcessedMessageRecord) (store : ProcessedMessages)
    → has id (insert key r store) ≡ (str_eq key id || has id store)
unfolding has
has-insert id key r store = ground (arith, lookup-insert store key id r)

abbrev claim_of : Delivery → ProcessedMessages → Claim × ProcessedMessages
claim_of d store = check_and_mark_processed d.message_id d.consumer d.now store

abbrev is_new : Delivery → ProcessedMessages → Bool
is_new d store =
    not (is_blank d.message_id) && not (is_blank d.consumer) && not (has d.message_id store)

claim-is_new :
    (d : Delivery) (store : ProcessedMessages) → is_claimed (claim_of d store).0 ≡ is_new d store
unfolding check_and_mark_processed check_and_mark
claim-is_new d store = elim (Bool-cases (is_blank d.message_id)) [
  | inl b ↦ rw b refl
  | inr b ↦ elim (Bool-cases (is_blank d.consumer)) [
    | inl c ↦ rw (b, c) refl
    | inr c ↦ elim (Bool-cases (has d.message_id store)) [
      | inl h ↦ rw (b, c, h) refl
      | inr h ↦ rw (b, c, h) refl
    ]
  ]
]

unchanged : (same had : Bool) → had ≡ ((same && false) || had)
unchanged same had = ground arith

with_true : (same had : Bool) → (same || had) ≡ ((same && true) || had)
with_true same had = ground arith

has-claim :
    (id : String) (d : Delivery) (store : ProcessedMessages)
    → has id (claim_of d store).1 ≡ ((str_eq d.message_id id && is_new d store) || has id store)
unfolding check_and_mark_processed check_and_mark
has-claim id d store = elim (Bool-cases (is_blank d.message_id)) [
  | inl b ↦ rw b (unchanged (str_eq d.message_id id) (has id store))
  | inr b ↦ elim (Bool-cases (is_blank d.consumer)) [
    | inl c ↦ rw (b, c) (unchanged (str_eq d.message_id id) (has id store))
    | inr c ↦ elim (Bool-cases (has d.message_id store)) [
      | inl h ↦ rw (b, c, h) (unchanged (str_eq d.message_id id) (has id store))
      | inr h ↦
          rw (b, c, h)
            (has-insert id d.message_id _ store ∙ with_true (str_eq d.message_id id) (has id store))
    ]
  ]
]

abbrev counted : (same new had later : Bool) → ℕ
counted same new had later =
    if same && new
    then suc (bit (not ((same && new) || had) && later))
    else bit (not ((same && new) || had) && later)

counted_lem :
    (same m c had_own had later : Bool)
    → (same ≡ true → had_own ≡ had)
    → counted same (not m && not c && not had_own) had later
      ≡ bit (not had && ((same && not m && not c) || later))
counted_lem same m c had_own had later e = ground arith

-- The claims of a message that is not in the store yet.
claims_of-has :
    (id : String) (ds : List Delivery) (store : ProcessedMessages)
    → claims_of id ds store ≡ bit (not (has id store) && any_proper id ds)
unfolding claims_of
claims_of-has id [] store = ground arith
claims_of-has id (d ∷ ds) store =
    rw (claim-is_new d store, claims_of-has id ds (claim_of d store).1, has-claim id d store)
      (counted_lem (str_eq d.message_id id) (is_blank d.message_id) (is_blank d.consumer)
        (has d.message_id store) (has id store) (any_proper id ds)
        (λ same. ap (λ k. has k store) ((eq_iff d.message_id id).0 same)))

-- Whatever deliveries arrive, in whatever order and for whatever consumers, of those that name a
-- message exactly one claims it, if any of them is proper (with a message id and a consumer that are
-- not blank), and none otherwise.
pub claims_of-once :
    (id : String) (ds : List Delivery) → claims_of id ds [] ≡ bit (any_proper id ds)
unfolding has lookup
claims_of-once id ds = claims_of-has id ds []
