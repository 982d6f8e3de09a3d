-- ===== src/Wallet/Failure/Terminal.antt =====
-- Failures that are never retried (apps/backend/wallet/src/queue/submissionFailure.ts).
use delego.Base.{
  ℕ, ◌≡◌, refl, Bool, true, false, ◌||◌, Option, [], ◌∷◌, ◌++◌, if◌then◌else◌, arith, Bool-cases,
  inl, inr, All-append, any, ◌==◌,
}
use delego.Base.Text.{
  Text, text, includes, to_lower, Free, includes-append, includes-Free, to_lower-append,
  to_lower-Free_underscore,
}
use delego.Wallet.Failure.{
  FailureCode, error_object, classify, classify_submission_failure, get_error_message,
  simulation_failed_message, transaction_failed_message,
}

Stops : FailureCode × Bool → Type 0
Stops verdict = verdict.1 ≡ false

past : (test : Bool) (x y : FailureCode × Bool) → Stops x → Stops y → Stops (if test then x else y)
unfolding Stops
past true x y h k = h
past false x y h k = k

here :
    (test : Bool) (x y : FailureCode × Bool) → test ≡ true → Stops x → Stops (if test then x else y)
unfolding Stops
here test x y e h = rw e h

next :
    (test : Bool) (x y : FailureCode × Bool)
    → test ≡ false
    → Stops y
    → Stops (if test then x else y)
unfolding Stops
next test x y e h = rw e h

stops : (x : FailureCode × Bool) → x.1 ≡ false → Stops x
unfolding Stops
stops x h = h

either-false : (a b : Bool) → a ≡ false → b ≡ false → (a || b) ≡ false
either-false a b h k = rw (h, k) refl

-- A lowered message with "simulation failed" is not retried, whatever else it holds.
classify_simulation :
    (lower : Text) → includes (text "simulation failed") lower ≡ true → Stops (classify lower)
unfolding classify
classify_simulation lower h = search (past, here, stops, h)

-- One with "transaction failed" and without "bad_seq" is not retried either.
classify_execution :
    (lower : Text)
    → includes (text "transaction failed") lower ≡ true
    → includes (text "tx_bad_seq") lower ≡ false
    → includes (text "bad_seq") lower ≡ false
    → Stops (classify lower)
unfolding classify
classify_execution lower h a b = search (past, next, here, stops, either-false, h, a, b)

-- What a fixed message begins with is still there when it is lowered.
lowered-begins :
    (p prefix rest : Text)
    → includes p (to_lower prefix) ≡ true
    → includes p (to_lower (prefix ++ rest)) ≡ true
lowered-begins p prefix rest h =
    rw (to_lower-append prefix rest) (includes-append p (to_lower prefix) (to_lower rest) h)

-- A text without an underscore has none of the patterns that have one.
no_underscore-includes :
    (p t : Text) → (Free b'_' p → ⊥) → Free b'_' t → includes p (to_lower t) ≡ false
no_underscore-includes p t n f = elim (Bool-cases (includes p (to_lower t))) [
  | inl found ↦ absurd (n (includes-Free b'_' p (to_lower t) (to_lower-Free_underscore t f) found))
  | inr missing ↦ missing
]

pub Free-from_test : (c : ℕ) (t : Text) → any (λ d. d == c) t ≡ false → Free c t
Free-from_test c [] h = tt
Free-from_test c (d ∷ t) h = (ground arith, Free-from_test c t (ground arith))

prefix_simulation :
    includes (text "simulation failed") (to_lower (text "Transaction simulation failed: ")) ≡ true
unfolding includes to_lower
prefix_simulation = refl

prefix_transaction :
    includes (text "transaction failed") (to_lower (text "Transaction failed: ")) ≡ true
unfolding includes to_lower
prefix_transaction = refl

-- The error that the worker throws on a failed simulation is not retryable, whatever the text of
-- the simulation's answer in it.
pub simulation_failed-not_retryable :
    (answer : Text) (tx_hash : Option Text)
    → (classify_submission_failure
        (error_object (simulation_failed_message answer))
        tx_hash).retryable
      ≡ false
unfolding classify_submission_failure get_error_message Stops
simulation_failed-not_retryable answer tx_hash =
    classify_simulation (to_lower (simulation_failed_message answer)) (
      lowered-begins (text "simulation failed") (text "Transaction simulation failed: ") answer
        prefix_simulation)

-- The error that the worker throws when the ledger reports a transaction as failed is not
-- retryable when the result in it has no underscore, as in base64: the classification as a
-- sequence conflict, which is retryable, is never reached from there.
pub transaction_failed-not_retryable :
    (result_xdr : Text) (tx_hash : Option Text)
    → Free b'_' result_xdr
    → (classify_submission_failure
        (error_object (transaction_failed_message result_xdr))
        tx_hash).retryable
      ≡ false
unfolding classify_submission_failure get_error_message Stops
transaction_failed-not_retryable result_xdr tx_hash f =
    let message = transaction_failed_message result_xdr in
    let free : Free b'_' message =
      All-append _ (text "Transaction failed: ") result_xdr
        (Free-from_test b'_' (text "Transaction failed: ") refl) f in
    classify_execution (to_lower message)
      (lowered-begins (text "transaction failed") (text "Transaction failed: ") result_xdr
        prefix_transaction)
      (no_underscore-includes (text "tx_bad_seq") message (λ f. f.1.1.0 refl) free)
      (no_underscore-includes (text "bad_seq") message (λ f. f.1.1.1.0 refl) free)
