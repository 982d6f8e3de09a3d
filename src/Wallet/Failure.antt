-- ===== src/Wallet/Failure.antt =====
-- apps/backend/wallet/src/queue/submissionFailure.ts.
pub mod Terminal
mod Tests
use delego.Base.{
  ℕ, Bool, true, false, ◌||◌, Option, none, some, List, [], ◌∷◌, ◌++◌, if◌then◌else◌, any, map,
}
use delego.Base.Text.{Text, text, includes, to_lower}

pub data FailureCode : Type 0 where
  malformed_xdr auth_failure simulation_failed sequence_conflict execution_failed : FailureCode
  rpc_transient submission_rejected poll_timeout submission_unknown : FailureCode

pub record SubmissionFailure : Type 0 where
  pub code : FailureCode
  pub message : Text
  pub retryable : Bool
  pub tx_hash : Option Text

abbrev pub malformed_xdr_patterns : List Text
malformed_xdr_patterns =
    text "malformed xdr"
    ∷ text "invalid xdr"
    ∷ text "failed to parse xdr"
    ∷ text "fromxdr"
    ∷ text "xdr decode"
    ∷ text "bad xdr"
    ∷ []

abbrev pub auth_failure_patterns : List Text
auth_failure_patterns =
    text "auth failure"
    ∷ text "authentication failed"
    ∷ text "unauthorized"
    ∷ text "forbidden"
    ∷ text "access denied"
    ∷ text "invalid auth tag"
    ∷ text "decryption failed"
    ∷ text "failed to decrypt"
    ∷ []

abbrev pub retryable_network_patterns : List Text
retryable_network_patterns =
    text "timeout"
    ∷ text "network"
    ∷ text "econnrefused"
    ∷ text "enotfound"
    ∷ text "econnreset"
    ∷ text "etimedout"
    ∷ text "socket hang up"
    ∷ text "fetch failed"
    ∷ text "rate limit"
    ∷ text "429"
    ∷ text "500"
    ∷ text "502"
    ∷ text "503"
    ∷ text "504"
    ∷ text "temporarily unavailable"
    ∷ text "service unavailable"
    ∷ []

-- What a `catch` clause gets: an `Error`, a text, or another value with the results of
-- `JSON.stringify` (`none` when that throws) and of `String`.
pub data Caught : Type 0 where
  error_object : Text → Caught
  bare_text : Text → Caught
  other_value : Option Text → Text → Caught

unfoldable pub get_error_message : Caught → Text
get_error_message (error_object message) = message
get_error_message (bare_text message) = message
get_error_message (other_value (some json) plain) = json
get_error_message (other_value none plain) = plain

-- The message is lowered once more than its caller has.
unfoldable pub matches_patterns : Text → List Text → Bool
matches_patterns message patterns = any (λ p. includes p (to_lower message)) patterns

-- The code and `retryable` of a lowered message: the first test that passes decides.
unfoldable pub classify : Text → FailureCode × Bool
unfolding matches_patterns
classify lower =
    if matches_patterns lower malformed_xdr_patterns
    then (malformed_xdr, false)
    else if matches_patterns lower auth_failure_patterns
    then (auth_failure, false)
    else if includes (text "simulation failed") lower
    then (simulation_failed, false)
    else if includes (text "tx_bad_seq") lower || includes (text "bad_seq") lower
    then (sequence_conflict, true)
    else if includes (text "transaction failed") lower
    then (execution_failed, false)
    else if includes (text "submission failed") lower
    then (if matches_patterns lower retryable_network_patterns
        then (rpc_transient, true)
        else (submission_rejected, false))
    else if includes (text "transaction timeout") lower || includes (text "status untracked") lower
    then (poll_timeout, true)
    else if matches_patterns lower retryable_network_patterns
    then (rpc_transient, true)
    else (submission_unknown, false)

unfoldable pub classify_submission_failure : Caught → Option Text → SubmissionFailure
unfolding classify get_error_message
classify_submission_failure err tx_hash =
    let message = get_error_message err in
    let (code, retryable) = classify (to_lower message) in
    record { code = code; message = message; retryable = retryable; tx_hash = tx_hash }

-- The messages of two errors that the worker throws.
abbrev pub simulation_failed_message : Text → Text
simulation_failed_message answer = text "Transaction simulation failed: " ++ answer

abbrev pub transaction_failed_message : Text → Text
transaction_failed_message result_xdr = text "Transaction failed: " ++ result_xdr
