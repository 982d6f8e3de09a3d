-- ===== src/Orchestrator/Messages.antt =====
-- apps/backend/orchestrator/src/messaging/processed-messages.ts: a consumer claims a message before
-- it works on it. The store is passed along; a timestamp is a number of milliseconds.
pub mod Once
mod Tests
use delego.Base.{
  ℕ, String, Bool, true, false, ◌&&◌, ◌||◌, Option, none, some, List, [], ◌∷◌, if◌then◌else◌,
  str_eq, leb, ◌==◌,
}
use delego.Base.Maps.{Map, lookup, insert}
use delego.Base.Text.{text}
use delego.Base.Trim.{all_space}

pub record ProcessedMessageRecord : Type 0 where
  pub message_id : String
  pub consumer : String
  pub processed_at : ℕ

-- `InMemoryProcessedMessageStore.processed`
abbrev pub ProcessedMessages : Type 0
ProcessedMessages = Map ProcessedMessageRecord

abbrev is_some {ℓ} : {A : Type ℓ} → Option A → Bool
is_some none = false
is_some (some _) = true

-- `this.processed.has`
unfoldable pub has : String → ProcessedMessages → Bool
unfolding lookup
has id store = is_some (lookup id store)

-- `checkAndMark` of the store.
unfoldable pub check_and_mark :
    (message_id consumer : String) → ℕ → ProcessedMessages → Bool × ProcessedMessages
unfolding has insert
check_and_mark message_id consumer now store = if has message_id store then (false, store) else (
  true,
  insert message_id (record { message_id = message_id; consumer = consumer; processed_at = now })
      store,
)

-- `!s || s.trim() === ""`
unfoldable pub is_blank : String → Bool
is_blank s = all_space (text s)

pub data Claim : Type 0 where
  claimed already_processed message_id_required consumer_required : Claim

abbrev pub answered : Bool × ProcessedMessages → Claim × ProcessedMessages
answered (true, store) = (claimed, store)
answered (false, store) = (already_processed, store)

unfoldable pub check_and_mark_processed :
    (message_id consumer : String) → ℕ → ProcessedMessages → Claim × ProcessedMessages
unfolding check_and_mark is_blank
check_and_mark_processed message_id consumer now store =
    if is_blank message_id
    then (message_id_required, store)
    else if is_blank consumer
    then (consumer_required, store)
    else answered (check_and_mark message_id consumer now store)
