-- ===== src/Orchestrator/Messages/Tests.antt =====
-- Tests of the claims of messages, and the theorem at concrete deliveries.
use delego.Base.{ℕ, ◌≡◌, refl, true, String, List, [], ◌∷◌}
use delego.Base.Maps.{lookup, insert}
use delego.Orchestrator.Messages.{
  is_blank, check_and_mark, check_and_mark_processed, consumer_required,
}
use delego.Orchestrator.Messages.Once.{Delivery, claims_of, claims_of-once, bit, any_proper}

abbrev to : String → ℕ → Delivery
to consumer now = record { message_id = "m1"; consumer = consumer; now = now }

abbrev deliveries : List Delivery
deliveries = to " " 0 ∷ to "audit" 1 ∷ to "mail" 2 ∷ to "audit" 3 ∷ []

blank : is_blank " \t" ≡ true
unfolding is_blank
blank = refl

needs_consumer : (check_and_mark_processed "m1" " " 0 []).0 ≡ consumer_required
unfolding check_and_mark_processed is_blank
needs_consumer = refl

once : claims_of "m1" deliveries [] ≡ 1
unfolding claims_of check_and_mark_processed check_and_mark is_blank lookup insert
once = refl

claims_of-once_example : claims_of "m1" deliveries [] ≡ bit (any_proper "m1" deliveries)
claims_of-once_example = claims_of-once "m1" deliveries
