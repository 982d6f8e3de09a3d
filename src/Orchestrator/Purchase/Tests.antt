-- ===== src/Orchestrator/Purchase/Tests.antt =====
-- Tests of the stored purchase workflows, and the theorems at concrete runs.
use delego.Base.{Bool, str_eq, ℕ, ◌≡◌, refl, true, some, List, [], ◌∷◌, map}
use delego.Base.Maps.{lookup, insert}
use delego.Orchestrator.Purchase.{
  searching, found, approved, cancelled, search, products_found, approve, cancel, type_approve,
  PurchaseContext, WorkflowSnapshot, transitions, update_context, apply_event,
}
use delego.Orchestrator.Purchase.Store.{
  Services, Calls, persist_workflow, load_workflow, publish_event, reply, invalid_transition,
  first_snapshot, create_workflow, next_snapshot, write_transition, transition_workflow,
}
use delego.Orchestrator.Purchase.Messages.{
  Request, create, move, perform_all, nothing_yet, Tracked, events_of, AreOrdinary,
  perform_all-Tracked,
}
use delego.Orchestrator.Purchase.Race.{write_transition-overwrites}

abbrev at : ℕ → Calls
at now = record { now = now; load_works = true; persist_works = true; publish_works = true }

-- The approval comes too early, and is refused.
abbrev requests : List Request
requests =
    create "o1" "u" "d" "shoes" (at 0)
    ∷ move "o1" (search "shoes" "d") (at 1)
    ∷ create "o2" "u" "d" "hat" (at 2)
    ∷ move "o1" (approve "p") (at 3)
    ∷ move "o1" (products_found []) (at 4)
    ∷ move "o2" (cancel "late") (at 5)
    ∷ []

abbrev end : Services
end = perform_all requests nothing_yet

announced : map (λ e. e.current_state) (events_of "o1" end.published) ≡ found ∷ searching ∷ []
unfolding lookup insert create_workflow transition_workflow load_workflow write_transition
    apply_event persist_workflow publish_event transitions update_context perform_all
announced = refl

too_early :
    (transition_workflow "o2" (approve "p") (at 9) end).0
    ≡ invalid_transition type_approve cancelled
unfolding lookup insert create_workflow transition_workflow load_workflow write_transition
    apply_event persist_workflow publish_event transitions update_context perform_all
too_early = refl

ordinary : AreOrdinary requests nothing_yet
unfolding lookup insert create_workflow transition_workflow load_workflow write_transition
    apply_event persist_workflow publish_event transitions update_context
ordinary = (refl, (refl, (refl, (refl, (refl, (refl, tt))))))

perform_all-Tracked_example :
    Tracked
      (events_of "o1" (perform_all requests nothing_yet).published)
      (lookup "o1" (perform_all requests nothing_yet).rows)
perform_all-Tracked_example = perform_all-Tracked requests "o1" ordinary

-- A cancellation and an approval of a workflow whose products have been found.
abbrev chosen : WorkflowSnapshot
chosen = record (first_snapshot "o1" "u" "d" "shoes" 0) { state = found }

abbrev cancelled_context : PurchaseContext
cancelled_context = record chosen.context { error = some "late" }

abbrev approved_context : PurchaseContext
approved_context = record chosen.context { selected_product_id = some "p" }

cancelled_then :
    apply_event found (cancel "late") chosen.context ≡ some (cancelled, cancelled_context)
unfolding apply_event transitions update_context
cancelled_then = refl

approved_then : apply_event found (approve "p") chosen.context ≡ some (approved, approved_context)
unfolding apply_event transitions update_context
approved_then = refl

write_transition-overwrites_example :
    ((write_transition chosen (cancel "late") (at 1) end).0
      ≡ reply (next_snapshot chosen cancelled cancelled_context 1))
    × ((write_transition chosen
          (approve "p")
          (at 2)
          (write_transition chosen (cancel "late") (at 1) end).1).0
        ≡ reply (next_snapshot chosen approved approved_context 2))
    × (load_workflow "o1"
          (write_transition chosen
            (approve "p")
            (at 2)
            (write_transition chosen (cancel "late") (at 1) end).1).1
        ≡ some (next_snapshot chosen approved approved_context 2))
    × ((transition_workflow "o1"
          (approve "p")
          (at 2)
          (write_transition chosen (cancel "late") (at 1) end).1).0
        ≡ invalid_transition type_approve cancelled)
write_transition-overwrites_example =
    write_transition-overwrites chosen (cancel "late") (approve "p") (at 1) (at 2) cancelled
      approved cancelled_context approved_context end cancelled_then approved_then refl refl refl
      refl

abbrev is_second : WorkflowSnapshot → Bool
is_second s = str_eq s.order_id "o2"
