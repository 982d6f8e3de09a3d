-- ===== src/Orchestrator/Machine/Snapshot/Recovery.antt =====
-- Crash recovery of a purchase machine from its own snapshot (`fromSnapshot` of
-- apps/backend/orchestrator/state/machine.ts).
use delego.Base.{ℕ, String, ◌≡◌, refl, ◌∙◌, ◌≢◌, List, [], ◌∷◌, sym, arith}
use delego.Orchestrator.Machine.{
  WorkflowSnapshot, snapshot_version, Machine, new_machine, send_all, Call, apply_context_update,
  PurchaseEvent, send, PurchaseContext, Hook, Reading,
}
use delego.Orchestrator.Machine.Invariant.{
  rejected, accepted, send_lem, send_all-new_machine-IsValid,
}
use delego.Base.Value.{get}
use delego.Orchestrator.Machine.Snapshot.{snapshot_value, restored, from_snapshot}
use delego.Orchestrator.Machine.Snapshot.Laws.{IsSnapshot, validate_snapshot_iff}

-- The three identifiers, which no event changes.
pub record HasIds (w d u : String) (s : WorkflowSnapshot) : Type 0 where
  pub workflow : s.workflow_id ≡ w
  pub context_workflow : s.context.workflow_id ≡ w
  pub delegation : s.context.delegation_id ≡ d
  pub user : s.context.user_id ≡ u

module _ {w d u : String} where
  apply-HasIds :
      (c : PurchaseContext) (e : PurchaseEvent) (now : ℕ)
      → c.workflow_id ≡ w
      → c.delegation_id ≡ d
      → c.user_id ≡ u
      → ((apply_context_update c e now).workflow_id ≡ w)
        × ((apply_context_update c e now).delegation_id ≡ d)
        × ((apply_context_update c e now).user_id ≡ u)
  unfolding apply_context_update
  apply-HasIds c e now p q r = ground arith

  send-HasIds :
      (hook : Hook) (now : Reading) (m : Machine) (e : PurchaseEvent)
      → HasIds w d u m.snapshot
      → HasIds w d u (send hook now m e).0.snapshot
  send-HasIds hook now m e h = elim (send_lem hook now m e) [
    | rejected same ↦ rw same h
    | accepted next step eq ↦
        let (a, b, c) =
          apply-HasIds m.snapshot.context e now.updated h.context_workflow h.delegation h.user in
        rw eq (record { workflow = h.workflow; context_workflow = a; delegation = b; user = c })
  ]

  send_all-HasIds :
      (m : Machine) (cs : List Call)
      → HasIds w d u m.snapshot
      → HasIds w d u (send_all m cs).snapshot
  unfolding send_all
  send_all-HasIds m [] h = h
  send_all-HasIds m (c ∷ cs) h =
      send_all-HasIds (send c.hook c.now m c.event).0 cs (send-HasIds c.hook c.now m c.event h)

  snapshot_value-IsSnapshot :
      (s : WorkflowSnapshot)
      → HasIds w d u s
      → s.version ≡ snapshot_version
      → w ≢ ""
      → d ≢ ""
      → u ≢ ""
      → IsSnapshot (snapshot_value s)
  unfolding get
  snapshot_value-IsSnapshot s h v nw nd nu = record {
    workflow_id = (s.workflow_id, refl, λ e. nw (sym h.workflow ∙ e));
    current_state = (s.current_state, refl);
    context = record {
      workflow_id = (s.context.workflow_id, refl, λ e. nw (sym h.context_workflow ∙ e));
      delegation_id = (s.context.delegation_id, refl, λ e. nd (sym h.delegation ∙ e));
      user_id = (s.context.user_id, refl, λ e. nu (sym h.user ∙ e));
    };
    history = (_, refl);
    version = rw v;
  }

new_machine-HasIds : (w d u : String) (now : ℕ) → HasIds w d u (new_machine w d u now).snapshot
unfolding new_machine
new_machine-HasIds w d u now = record {
  workflow = refl;
  context_workflow = refl;
  delegation = refl;
  user = refl;
}

-- Restoring the snapshot of a machine that was built with non-empty identifiers, after any
-- events, gives that machine back; so its later behaviour is the one it would have had.
pub from_snapshot-send_all :
    (w d u : String) (now : ℕ) (cs : List Call)
    → w ≢ ""
    → d ≢ ""
    → u ≢ ""
    → from_snapshot (send_all (new_machine w d u now) cs).snapshot
      ≡ restored (send_all (new_machine w d u now) cs)
unfolding from_snapshot
from_snapshot-send_all w d u now cs nw nd nu =
    let m = send_all (new_machine w d u now) cs in
    let ids = send_all-HasIds (new_machine w d u now) cs (new_machine-HasIds w d u now) in
    let valid = (send_all-new_machine-IsValid w d u now cs).versioned in
    rw
      ((validate_snapshot_iff (snapshot_value m.snapshot)).1
        (snapshot_value-IsSnapshot m.snapshot ids valid nw nd nu))
      refl
