-- ===== src/Orchestrator/Machine/Invariant.antt =====
-- What holds of a purchase machine (apps/backend/orchestrator/state/machine.ts) after any calls
-- of `send`.
use delego.Base.{
  ℕ, ◌+◌, ◌≤◌, ◌≡◌, refl, ◌∙◌, ◌≢◌, inl, inr, String, Bool, true, false, Option, none, some, List,
  [], ◌∷◌, ◌++◌, arith, length, length-append, Bool-cases, Option-cases,
}
use delego.Orchestrator.Machine.{
  PurchaseState, discovery, merchant_fulfillment, delivery_verification, completed, refunded,
  PurchaseEvent, type_of, PurchaseContext, StateTransitionRecord, WorkflowSnapshot,
  snapshot_version, transitions, terminal_states, apply_context_update, Machine, new_machine, Sent,
  sent, in_terminal_state, not_valid_in_state, hook_rejected, Reading, Hook, record_of, advance,
  notify, send, Call, send_all,
}
use delego.Orchestrator.Machine.Graph.{Chain, Chain-append, depth, transitions-depth}

abbrev pub is_some {ℓ} : {A : Type ℓ} → Option A → Bool
is_some none = false
is_some (some _) = true

abbrev pub past_discovery : PurchaseState → Bool
past_discovery discovery = false
past_discovery _ = true

abbrev pub past_escrow : PurchaseState → Bool
past_escrow merchant_fulfillment = true
past_escrow delivery_verification = true
past_escrow completed = true
past_escrow _ = false

abbrev pub is_refunded : PurchaseState → Bool
is_refunded refunded = true
is_refunded _ = false

-- The context holds what the state says has happened: the product once found, the escrow
-- contract once locked (a refunded workflow may or may not have one), and a rejection reason
-- exactly when refunded.
pub record Fits (s : PurchaseState) (c : PurchaseContext) : Type 0 where
  pub product : is_some c.product_id ≡ past_discovery s
  pub merchant : is_some c.merchant_id ≡ past_discovery s
  pub total : is_some c.total_stroops ≡ past_discovery s
  pub escrow : s ≢ refunded → is_some c.escrow_contract_id ≡ past_escrow s
  pub rejection : is_some c.rejection_reason ≡ is_refunded s

pub record IsValid (m : WorkflowSnapshot) : Type 0 where
  pub fits : Fits m.current_state m.context
  pub same_id : m.context.workflow_id ≡ m.workflow_id
  pub versioned : m.version ≡ snapshot_version
  pub linked : Chain discovery m.history m.current_state
  pub deep : m.current_state ≢ refunded → length m.history ≡ depth m.current_state
  pub short : length m.history ≤ depth m.current_state

apply-Fits :
    (a b : PurchaseState) (c : PurchaseContext) (e : PurchaseEvent) (now : ℕ)
    → transitions a (type_of e) ≡ some b
    → Fits a c
    → Fits b (apply_context_update c e now)
unfolding transitions apply_context_update
apply-Fits a b c e now h f = ground arith

apply-id :
    (c : PurchaseContext) (e : PurchaseEvent) (now : ℕ)
    → (apply_context_update c e now).workflow_id ≡ c.workflow_id
unfolding apply_context_update
apply-id c e now = ground arith

transitions-short :
    (a b : PurchaseState) (e : PurchaseEvent)
    → transitions a (type_of e) ≡ some b
    → depth a + 1 ≤ depth b
unfolding transitions
transitions-short a b e h = ground arith

transitions-ne-refunded :
    (a b : PurchaseState) (e : PurchaseEvent) → transitions a (type_of e) ≡ some b → a ≢ refunded
unfolding transitions
transitions-ne-refunded a b e h = ground arith

advance-IsValid :
    (s : WorkflowSnapshot) (e : PurchaseEvent) (next : PurchaseState) (now : Reading)
    → transitions s.current_state (type_of e) ≡ some next
    → IsValid s
    → IsValid (advance s e next now)
advance-IsValid s e next now h v =
    let r = record_of s e next now in
    record {
      fits = apply-Fits s.current_state next s.context e now.updated h v.fits;
      same_id = apply-id s.context e now.updated ∙ v.same_id;
      versioned = v.versioned;
      linked = Chain-append discovery s.history r v.linked refl h;
      deep = λ n. omega (
        arith,
        length-append s.history (r ∷ []),
        v.deep (transitions-ne-refunded s.current_state next e h),
        transitions-depth s.current_state next (type_of e) h n,
      );
      short = omega (
        arith,
        length-append s.history (r ∷ []),
        v.short,
        transitions-short s.current_state next e h,
      );
    }

-- Either the machine is left alone, or the event is one of the table's and the snapshot advances.
pub data SendCase (hook : Hook) (now : Reading) (m : Machine) (e : PurchaseEvent) : Type 0 where
  rejected : (send hook now m e).0 ≡ m → SendCase hook now m e
  accepted :
      (next : PurchaseState)
      → transitions m.snapshot.current_state (type_of e) ≡ some next
      → (send hook now m e).0 ≡ record { snapshot = advance m.snapshot e next now }
      → SendCase hook now m e

pub send_lem :
    (hook : Hook) (now : Reading) (m : Machine) (e : PurchaseEvent) → SendCase hook now m e
unfolding send
send_lem hook now m e = elim (Bool-cases (terminal_states m.snapshot.current_state)) [
  | inl stop ↦ rejected (rw stop)
  | inr go ↦ elim (Option-cases (transitions m.snapshot.current_state (type_of e))) [
    | inl refused ↦ rejected (ground arith)
    | inr (next, h) ↦ accepted next h (ground arith)
  ]
]

send-IsValid :
    (hook : Hook) (now : Reading) (m : Machine) (e : PurchaseEvent)
    → IsValid m.snapshot
    → IsValid (send hook now m e).0.snapshot
send-IsValid hook now m e v = elim (send_lem hook now m e) [
  | rejected h ↦ rw h v
  | accepted next h eq ↦ rw eq (advance-IsValid m.snapshot e next now h v)
]

send_all-IsValid :
    (m : Machine) (cs : List Call) → IsValid m.snapshot → IsValid (send_all m cs).snapshot
unfolding send_all
send_all-IsValid m [] v = v
send_all-IsValid m (c ∷ cs) v =
    send_all-IsValid (send c.hook c.now m c.event).0 cs (send-IsValid c.hook c.now m c.event v)

new_machine-IsValid : (w d u : String) (now : ℕ) → IsValid (new_machine w d u now).snapshot
unfolding new_machine
new_machine-IsValid w d u now = ground arith

-- A machine that is built by the constructor and sent any events, its hook behaving in any way,
-- satisfies the invariant: its history leads from `Discovery` to its state along the table, its
-- context holds what the state says has happened, the context has the workflow's id, and the version
-- is the supported one. The history is as long as the state is deep in the table, and for a refunded
-- workflow at most so long.
pub send_all-new_machine-IsValid :
    (w d u : String) (now : ℕ) (cs : List Call)
    → IsValid (send_all (new_machine w d u now) cs).snapshot
send_all-new_machine-IsValid w d u now cs =
    send_all-IsValid (new_machine w d u now) cs (new_machine-IsValid w d u now)

-- The record that a move to a state adds to the history.
abbrev pub added :
    WorkflowSnapshot → PurchaseEvent → Reading → PurchaseState → StateTransitionRecord
added s e now next = record {
  workflow_id = s.workflow_id;
  from_state = s.current_state;
  to_state = next;
  event = type_of e;
  context = apply_context_update s.context e now.updated;
  timestamp = now.recorded;
}

-- The machine has moved from the snapshot `s` along the table.
pub record Moved (s : WorkflowSnapshot) (e : PurchaseEvent) (now : Reading) (next : PurchaseState)
    (m' : Machine) : Type 0 where
  pub edge : transitions s.current_state (type_of e) ≡ some next
  pub state : m'.snapshot.current_state ≡ next
  pub context : m'.snapshot.context ≡ apply_context_update s.context e now.updated
  pub history : m'.snapshot.history ≡ s.history ++ (added s e now next ∷ [])
  pub same_id : m'.snapshot.workflow_id ≡ s.workflow_id
  pub same_version : m'.snapshot.version ≡ s.version

-- What the hook does with the record of the move: nothing, when there is no hook.
abbrev pub hook_result : Hook → StateTransitionRecord → Option String
hook_result none r = none
hook_result (some hook) r = hook r

-- What `send` does to the machine `m`, by how its promise ends.

abbrev pub Effect : Hook → Machine → PurchaseEvent → Reading → Machine × Sent → Type 0
Effect hook m e now (m', sent s) =
    (m'.snapshot ≡ s)
    × ((next : PurchaseState) × Moved m.snapshot e now next m'
        × (hook_result hook (added m.snapshot e now next) ≡ none))
Effect hook m e now (m', in_terminal_state s) =
    (m' ≡ m) × (s ≡ m.snapshot.current_state) × (terminal_states s ≡ true)
Effect hook m e now (m', not_valid_in_state t s) =
    (m' ≡ m) × (s ≡ m.snapshot.current_state) × (t ≡ type_of e) × (transitions s t ≡ none)
Effect hook m e now (m', hook_rejected why) =
    (next : PurchaseState) × Moved m.snapshot e now next m'
    × (hook_result hook (added m.snapshot e now next) ≡ some why)

advance-Moved :
    (s : WorkflowSnapshot) (e : PurchaseEvent) (next : PurchaseState) (now : Reading)
    → transitions s.current_state (type_of e) ≡ some next
    → Moved s e now next (record { snapshot = advance s e next now })
advance-Moved s e next now h = record {
  edge = h;
  state = refl;
  context = refl;
  history = refl;
  same_id = refl;
  same_version = refl;
}

notify-Effect :
    (hook : Hook) (m : Machine) (e : PurchaseEvent) (next : PurchaseState) (now : Reading)
    → transitions m.snapshot.current_state (type_of e) ≡ some next
    → Effect hook m e now
        (notify hook (record_of m.snapshot e next now) (advance m.snapshot e next now))
notify-Effect none m e next now h = (refl, (next, advance-Moved m.snapshot e next now h, refl))
notify-Effect (some hook) m e next now h =
    elim (Option-cases (hook (record_of m.snapshot e next now))) [
      | inl resolved ↦
          rw (resolved, notify) (refl, (next, advance-Moved m.snapshot e next now h, resolved))
      | inr (why, failed) ↦
          rw (failed, notify) (next, advance-Moved m.snapshot e next now h, failed)
    ]

-- A call of `send` that is refused for its state, which is terminal, or for its event, which the
-- table has no edge for, leaves the machine as it was. A call whose promise resolves, or rejects with
-- the error of the hook, has moved along the table: the state is the next one, the context is updated
-- for the event, and the history ends with one new record, which names both states, the event, the
-- new context and the time, and which the hook was given. A failed hook does not undo the move.
pub send-Effect :
    (hook : Hook) (now : Reading) (m : Machine) (e : PurchaseEvent)
    → Effect hook m e now (send hook now m e)
unfolding send
send-Effect hook now m e = elim (Bool-cases (terminal_states m.snapshot.current_state)) [
  | inl stop ↦ rw stop (refl, refl, stop)
  | inr go ↦ elim (Option-cases (transitions m.snapshot.current_state (type_of e))) [
    | inl refused ↦ rw (go, refused) (refl, refl, refl, refused)
    | inr (next, h) ↦ rw (go, h) (notify-Effect hook m e next now h)
  ]
]
