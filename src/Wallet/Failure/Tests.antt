-- ===== src/Wallet/Failure/Tests.antt =====
-- Tests of the classification of failures, and the theorems at concrete messages.
use delego.Base.{◌≡◌, refl, true, false, none}
use delego.Base.Text.{text, includes, to_lower}
use delego.Wallet.Failure.{
  error_object, classify, classify_submission_failure, sequence_conflict, rpc_transient,
  submission_rejected,
}

bad_sequence_test :
    (classify_submission_failure (error_object (text "Submission failed: TX_BAD_SEQ")) none).code
    ≡ sequence_conflict
unfolding classify_submission_failure includes to_lower
bad_sequence_test = refl

rejected_test :
    classify (text "submission failed: tx_insufficient_fee") ≡ (submission_rejected, false)
unfolding classify includes to_lower
rejected_test = refl

-- A digit sequence such as 500 is found anywhere in the message, so in an amount or a hash too.
digits_test : classify (text "submission failed: hash ab15004f") ≡ (rpc_transient, true)
unfolding classify includes to_lower
digits_test = refl
