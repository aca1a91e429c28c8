-- ===== src/Wallet/Tests.antt =====
-- The wallet on a small bank, and its theorems at concrete inputs.
use backend_htssclub.Base.{ℕ, ◌≡◌, refl, some, List, [], ◌∷◌, arith}
use backend_htssclub.Base.Int.{ℤ, pos, negsuc, ◌+ℤ◌, ◌-ℤ◌, int_laws}
use backend_htssclub.Common.Enums.{TxType}
use backend_htssclub.Common.Action.{ok, ◌>>=◌}
use backend_htssclub.Common.Action.Atomic.{IsAtomic}
use backend_htssclub.Wallet.{
  User, Bank, Receipt, order, find_by_id, admin_adjust, debit, commit_and_emit, run_debit,
  update_user, find_one_and_update, transfer, run_transfer, debit_in_session, spend,
  insert_transaction, emit_wallet_event, update_one, credit_in_session, run_credit,
}
use backend_htssclub.Wallet.Requests.{Request, spend_coins, send, adjust, handle, serve_all}
use backend_htssclub.Wallet.Users.{balance_of}
use backend_htssclub.Wallet.Ledger.{IsSound, serve_all-IsSound, booked_sum}
use backend_htssclub.Wallet.Outcomes.{
  handle-IsAtomic, DebitOutcome, debit_outcome, Moved, transfer_moves,
}

abbrev user : ℕ → ℕ → User
user i coins = record { id = i; balance = pos coins }

abbrev bank : Bank
bank = record { users = user 1 50 ∷ user 2 0 ∷ []; transactions = []; emitted = [] }

abbrev opening : ℕ → ℤ
opening i = balance_of i bank.users

-- An overdraft, a transfer to nobody and a transfer to oneself are refused.
abbrev history : List Request
history =
    spend_coins 1 (pos 20) (some (order 7))
    ∷ spend_coins 2 (pos 1) (some (order 8))
    ∷ send 1 9 (pos 5) 100
    ∷ send 1 1 (pos 5) 101
    ∷ send 1 2 (pos 12) 102
    ∷ adjust 2 (negsuc 1)
    ∷ []

run-history : (serve_all history bank).users ≡ user 1 18 ∷ user 2 10 ∷ []
unfolding serve_all handle ◌>>=◌ ◌+ℤ◌ ◌-ℤ◌ admin_adjust debit commit_and_emit run_debit update_user
    find_one_and_update transfer run_transfer debit_in_session spend insert_transaction
    emit_wallet_event update_one credit_in_session run_credit
run-history = refl

opens-IsSound : IsSound opening bank
unfolding balance_of find_by_id booked_sum
opens-IsSound = record {
  unique = (refl, (refl, tt));
  nonneg = omega arith;
  booked_up = λ j. omega int_laws;
}

serve_all-IsSound_example : IsSound opening (serve_all history bank)
serve_all-IsSound_example = serve_all-IsSound opening history bank opens-IsSound

handle-IsAtomic_example : IsAtomic (handle (send 1 9 (pos 5) 100))
handle-IsAtomic_example = handle-IsAtomic (send 1 9 (pos 5) 100)

debit_outcome_example : DebitOutcome 1 (pos 20) TxType.spend (some (order 7)) bank
unfolding find_by_id
debit_outcome_example =
    debit_outcome 1 (pos 20) TxType.spend (some (order 7)) bank (refl, (refl, tt))

transfer_moves_example :
    ((r : Receipt × Receipt) × ((transfer 1 2 (pos 12) 102 bank).0 ≡ ok r))
    × Moved 1 2 (pos 12) 102 bank (user 1 50) (user 2 0) (transfer 1 2 (pos 12) 102 bank).1
unfolding find_by_id
transfer_moves_example =
    transfer_moves 1 2 (pos 12) 102 bank (user 1 50) (user 2 0) (omega arith) refl refl refl refl
