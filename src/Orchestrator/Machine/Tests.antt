-- ===== src/Orchestrator/Machine/Tests.antt =====
-- Runs of the purchase machine, and its theorems at them.
use delego.Base.{ℕ, ◌≡◌, refl, ◌≢◌, none, some, List, [], ◌∷◌, arith, eq_iff, String, length}
use delego.Base.Int.{pos}
use delego.Orchestrator.Machine.{
  spending_check, completed, PurchaseEvent, product_found, spend_approved, user_approved,
  escrow_locked, fulfillment_confirmed, delivery_verified, Hook, Reading, Call, Machine,
  new_machine, send, send_all,
}
use delego.Orchestrator.Machine.Invariant.{
  IsValid, send_all-new_machine-IsValid, Effect, send-Effect,
}
use delego.Orchestrator.Machine.Snapshot.{restored, from_snapshot}
use delego.Orchestrator.Machine.Snapshot.Recovery.{from_snapshot-send_all}

abbrev failing : Hook
failing = some (λ r. some "connection lost")

abbrev at : ℕ → Reading
at t = record { updated = t; recorded = t }

abbrev call : PurchaseEvent → Call
call e = record { hook = none; now = at 7; event = e }

abbrev bought : List Call
bought =
    call (product_found "p" "m" (pos 500))
    ∷ call spend_approved
    ∷ call user_approved
    ∷ call (escrow_locked "C1")
    ∷ call spend_approved
    ∷ call fulfillment_confirmed
    ∷ call delivery_verified
    ∷ call spend_approved
    ∷ []

abbrev start : Machine
start = new_machine "w" "d" "u" 5

abbrev done : Machine
done = send_all start bought

done_tests :
    (done.snapshot.current_state ≡ completed)
    × (length done.snapshot.history ≡ 6)
    × (done.snapshot.context.escrow_contract_id ≡ some "C1")
unfolding send_all send new_machine
done_tests = (refl, refl, refl)

-- A hook that fails does not undo the move.
failing_test :
    (send failing (at 9) start (product_found "p" "m" (pos 1))).0.snapshot.current_state
    ≡ spending_check
unfolding send new_machine
failing_test = refl

send_all-new_machine-IsValid_example : IsValid done.snapshot
send_all-new_machine-IsValid_example = send_all-new_machine-IsValid "w" "d" "u" 5 bought

send-Effect_example :
    Effect failing start
      (product_found "p" "m" (pos 1))
      (at 9)
      (send failing (at 9) start (product_found "p" "m" (pos 1)))
send-Effect_example = send-Effect failing (at 9) start (product_found "p" "m" (pos 1))

w_not_empty : ◌≢◌ {A = String} "w" ""
w_not_empty = ground (arith, eq_iff "w" "")

d_not_empty : ◌≢◌ {A = String} "d" ""
d_not_empty = ground (arith, eq_iff "d" "")

u_not_empty : ◌≢◌ {A = String} "u" ""
u_not_empty = ground (arith, eq_iff "u" "")

from_snapshot-send_all_example : from_snapshot done.snapshot ≡ restored done
from_snapshot-send_all_example =
    from_snapshot-send_all "w" "d" "u" 5 bought w_not_empty d_not_empty u_not_empty
