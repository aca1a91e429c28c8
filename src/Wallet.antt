-- ===== src/Wallet.antt =====
-- src/wallet/wallet.service.ts over the collections `users` and `transactions`: the state, and
-- every operation that moves coins.
pub mod Users
pub mod Moves
pub mod Requests
pub mod Ledger
pub mod Outcomes
mod Tests
use backend_htssclub.Base.{ℕ, Bool, ◌&&◌, Option, none, some, List, [], ◌∷◌, ◌==◌, if◌then◌else◌}
use backend_htssclub.Base.Int.{ℤ, pos, ◌+ℤ◌, ◌-ℤ◌, ltb_ℤ, leb_ℤ, eqb_ℤ}
use backend_htssclub.Common.Enums.{TxType, reward, refund, topup}
use backend_htssclub.Common.Action.{
  Action, Exception, ok, pure, throw_if, or_throw, gets, ◌>>=◌, ◌>>◌, with_transaction, not_found,
  bad_request, user_not_found, amount_not_positive, amount_zero, insufficient_balance,
  self_transfer,
}

-- The fields of a user document that the services modelled here read or write.
pub record User : Type 0 where
  pub id : ℕ
  pub balance : ℤ

-- What the string `refId` of a transaction is made of.
pub data Ref : Type 0 where
  room_code caro_game tienlen_game tienlen_chop tienlen_rotten : ℕ → Ref
  user_ref top_up order : ℕ → Ref

pub record Transaction : Type 0 where
  pub user_id : ℕ
  pub type : TxType
  pub amount : ℤ
  pub balance_after : ℤ
  pub ref_id : Option Ref
  pub transfer_id : Option ℕ

-- The payload of `wallet:transaction`, sent to the room of one user.
pub record WalletEvent : Type 0 where
  pub to_user : ℕ
  pub balance : ℤ
  pub transaction : Transaction

pub record Bank : Type 0 where
  pub users : List User
  pub transactions : List Transaction
  pub emitted : List WalletEvent

-- `findOneAndUpdate(filter, update, { new: true })`: the first document that passes is updated
-- and returned.
unfoldable pub find_one_and_update : (User → Bool) → (User → User) → List User → Option User
find_one_and_update p f [] = none
find_one_and_update p f (u ∷ us) = if p u then some (f u) else find_one_and_update p f us

unfoldable pub update_one : (User → Bool) → (User → User) → List User → List User
update_one p f [] = []
update_one p f (u ∷ us) = if p u then f u ∷ us else u ∷ update_one p f us

unfoldable pub find_by_id : ℕ → List User → Option User
find_by_id i [] = none
find_by_id i (u ∷ us) = if u.id == i then some u else find_by_id i us

abbrev pub has_id : ℕ → User → Bool
has_id i u = u.id == i

-- `{ $inc: { balance: amount } }`
abbrev pub inc_balance : ℤ → User → User
inc_balance amount u = record u { balance = u.balance +ℤ amount }

-- `{ _id: userId, balance: { $gte: amount } }`
abbrev pub has_funds : ℕ → ℤ → User → Bool
has_funds i amount u = u.id == i && leb_ℤ amount u.balance

-- The update of one user, with the updated document as the result.
unfoldable pub update_user : (User → Bool) → (User → User) → Action Bank (Option User)
update_user p f b =
    (ok (find_one_and_update p f b.users), record b { users = update_one p f b.users })

unfoldable pub insert_transaction : Transaction → Action Bank (Unit {0})
insert_transaction t b = (ok tt, record b { transactions = t ∷ b.transactions })

-- What `credit` and `debit` return.
pub record Receipt : Type 0 where
  pub balance_after : ℤ
  pub transaction : Transaction

unfoldable pub emit_wallet_event : ℕ → Receipt → Action Bank (Unit {0})
emit_wallet_event i r b = (
  ok tt,
  record b {
    emitted =
        record { to_user = i; balance = r.balance_after; transaction = r.transaction } ∷ b.emitted;
  },
)

-- The transaction document that the two bodies create.
abbrev pub receipt : ℕ → ℤ → TxType → Option Ref → Option ℕ → User → Receipt
receipt i amount type ref transfer u = record {
  balance_after = u.balance;
  transaction = record {
    user_id = i;
    type = type;
    amount = amount;
    balance_after = u.balance;
    ref_id = ref;
    transfer_id = transfer;
  };
}

-- `run` of `credit`.
pub run_credit : ℕ → ℤ → TxType → Option Ref → Option ℕ → Action Bank Receipt
run_credit i amount type ref transfer = do
  found ← update_user (has_id i) (inc_balance amount)
  u ← or_throw found (not_found user_not_found)
  insert_transaction (receipt i amount type ref transfer u).transaction
  pure (receipt i amount type ref transfer u)

-- `run` of `debit`: the filter lets the `$inc` apply only when the balance covers the amount.
pub run_debit : ℕ → ℤ → TxType → Option Ref → Option ℕ → Action Bank Receipt
run_debit i amount type ref transfer = do
  found ← update_user (has_funds i amount) (inc_balance (pos 0 -ℤ amount))
  exists ← gets (λ b. find_by_id i b.users)
  u ←
      or_throw found (elim exists [
        | none ↦ not_found user_not_found
        | some _ ↦ bad_request insufficient_balance
      ])
  insert_transaction (receipt i (pos 0 -ℤ amount) type ref transfer u).transaction
  pure (receipt i (pos 0 -ℤ amount) type ref transfer u)

-- Its own transaction, and the event after the commit.
pub commit_and_emit : ℕ → Action Bank Receipt → Action Bank Receipt
commit_and_emit i run = do result ← with_transaction run; emit_wallet_event i result; pure result

-- `credit` without and with the session of a caller.
unfoldable pub credit : ℕ → ℤ → TxType → Option Ref → Action Bank Receipt
credit i amount type ref = do
  throw_if (leb_ℤ amount (pos 0)) (bad_request amount_not_positive)
  commit_and_emit i (run_credit i amount type ref none)

pub credit_in_session : ℕ → ℤ → TxType → Option Ref → Option ℕ → Action Bank Receipt
credit_in_session i amount type ref transfer = do
  throw_if (leb_ℤ amount (pos 0)) (bad_request amount_not_positive)
  run_credit i amount type ref transfer

unfoldable pub debit : ℕ → ℤ → TxType → Option Ref → Action Bank Receipt
debit i amount type ref = do
  throw_if (leb_ℤ amount (pos 0)) (bad_request amount_not_positive)
  commit_and_emit i (run_debit i amount type ref none)

pub debit_in_session : ℕ → ℤ → TxType → Option Ref → Option ℕ → Action Bank Receipt
debit_in_session i amount type ref transfer = do
  throw_if (leb_ℤ amount (pos 0)) (bad_request amount_not_positive)
  run_debit i amount type ref transfer

pub spend : ℕ → ℤ → Option Ref → Action Bank Receipt
spend i amount ref = debit i amount TxType.spend ref

pub confirm_topup : ℕ → ℤ → Ref → Action Bank Receipt
confirm_topup i amount ref = credit i amount topup (some ref)

-- The writes of `transfer`, in one transaction.
pub run_transfer : ℕ → ℕ → ℤ → ℕ → Action Bank (Receipt × Receipt)
run_transfer from to amount transfer = do
  debited ← debit_in_session from amount TxType.transfer (some (user_ref to)) (some transfer)
  credited ← credit_in_session to amount TxType.transfer (some (user_ref from)) (some transfer)
  pure (debited, credited)

-- `transfer`, with the identifier that `randomUUID` gave.
pub transfer : ℕ → ℕ → ℤ → ℕ → Action Bank (Receipt × Receipt)
transfer from to amount transfer_id = do
  throw_if (from == to) (bad_request self_transfer)
  receipts ← with_transaction (run_transfer from to amount transfer_id)
  emit_wallet_event from receipts.0
  emit_wallet_event to receipts.1
  pure receipts

-- `Math.abs(amount)` of a negative amount is its opposite.
pub admin_adjust : ℕ → ℤ → Action Bank Receipt
admin_adjust i amount = do
  throw_if (eqb_ℤ amount (pos 0)) (bad_request amount_zero)
  if ltb_ℤ (pos 0) amount
      then credit i amount reward none
      else debit i (pos 0 -ℤ amount) refund none
