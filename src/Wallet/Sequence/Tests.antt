-- ===== src/Wallet/Sequence/Tests.antt =====
-- Sequence numbers of two accounts, and the theorem at them.
use delego.Base.{ℕ, ◌≡◌, refl, some, List, [], ◌∷◌, arith, String}
use delego.Wallet.Redis.{cell_server, read, write, expire}
use delego.Base.Maps.{lookup, insert}
use delego.Wallet.Sequence.{get_next_sequence_number, SequenceCall, sequences}
use delego.Wallet.Sequence.Increasing.{IncreasesFrom, sequences-IncreasesFrom}

abbrev call : String → ℕ → ℕ → SequenceCall
call source now ledger = record { source = source; now = now; attempt = 1; ledger = some ledger }

abbrev after : cell_server.State
after = (get_next_sequence_number cell_server "G1" 0 1 (some 40) []).1

-- The ledger lags behind: it still reports 40.
abbrev calls : List SequenceCall
calls = call "G1" 9000 40 ∷ call "G2" 9500 7 ∷ call "G1" 30000 40 ∷ call "G1" 50000 60 ∷ []

first : get_next_sequence_number cell_server "G1" 0 1 (some 40) [] ≡ (some 40, after)
unfolding get_next_sequence_number read write expire lookup insert
first = refl

numbers : sequences cell_server "G1" calls after ≡ 42 ∷ 43 ∷ 61 ∷ []
unfolding sequences get_next_sequence_number read write expire lookup insert
numbers = refl

sequences-IncreasesFrom_example : IncreasesFrom 41 (sequences cell_server "G1" calls after)
sequences-IncreasesFrom_example =
    sequences-IncreasesFrom cell_server "G1" 0 1 40 40 calls [] after first
      (refl, omega arith, (refl, omega arith, (refl, omega arith, tt)))
