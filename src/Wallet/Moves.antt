-- ===== src/Wallet/Moves.antt =====
-- The bodies of `credit` and `debit`, case by case.
use backend_htssclub.Base.{ℕ, ◌≡◌, true, false, Option, none, some, ◌∷◌}
use backend_htssclub.Base.Int.{ℤ, pos, ◌-ℤ◌, leb_ℤ}
use backend_htssclub.Common.Enums.{TxType}
use backend_htssclub.Common.Action.{
  ok, err, ◌>>=◌, not_found, bad_request, user_not_found, insufficient_balance,
}
use backend_htssclub.Wallet.{
  User, Bank, Ref, find_by_id, update_one, has_id, inc_balance, update_user, insert_transaction,
  receipt, run_credit, run_debit,
}
use backend_htssclub.Wallet.Users.{
  HasUniqueIds, find-has_id-none, find-has_id-some, update-has_id-none, update-has_funds,
  find-has_funds, no_funds_missing, no_funds_short,
}

-- One user's balance changed by `a`, with the transaction that records it.
abbrev pub booked : ℕ → ℤ → TxType → Option Ref → Option ℕ → User → Bank → Bank
booked i a type ref t u b = record b {
  users = update_one (has_id i) (inc_balance a) b.users;
  transactions = (receipt i a type ref t (inc_balance a u)).transaction ∷ b.transactions;
}

module _ (i : ℕ) (a : ℤ) (type : TxType) (ref : Option Ref) (t : Option ℕ) (b : Bank) where
  pub run_credit_missing :
      find_by_id i b.users ≡ none
      → run_credit i a type ref t b ≡ (err (not_found user_not_found), b)
  unfolding run_credit update_user insert_transaction ◌>>=◌
  run_credit_missing e = rw (find-has_id-none i a b.users e, update-has_id-none i a b.users e)

  pub run_credit_found :
      (u : User)
      → find_by_id i b.users ≡ some u
      → run_credit i a type ref t b
        ≡ (ok (receipt i a type ref t (inc_balance a u)), booked i a type ref t u b)
  unfolding run_credit update_user insert_transaction ◌>>=◌
  run_credit_found u e = rw (find-has_id-some i a b.users u e)

  pub run_debit_missing :
      find_by_id i b.users ≡ none → run_debit i a type ref t b ≡ (err (not_found user_not_found), b)
  unfolding run_debit update_user insert_transaction ◌>>=◌
  run_debit_missing e = let (f, s) = no_funds_missing i (pos 0 -ℤ a) a b.users e in rw (f, s, e)

  pub run_debit_short :
      (u : User)
      → HasUniqueIds b.users
      → find_by_id i b.users ≡ some u
      → leb_ℤ a u.balance ≡ false
      → run_debit i a type ref t b ≡ (err (bad_request insufficient_balance), b)
  unfolding run_debit update_user insert_transaction ◌>>=◌
  run_debit_short u h e s =
      let (f, k) = no_funds_short i (pos 0 -ℤ a) a b.users u h e s in rw (f, k, e)

  pub run_debit_found :
      (u : User)
      → find_by_id i b.users ≡ some u
      → leb_ℤ a u.balance ≡ true
      → run_debit i a type ref t b ≡ (
        ok (receipt i (pos 0 -ℤ a) type ref t (inc_balance (pos 0 -ℤ a) u)),
        booked i (pos 0 -ℤ a) type ref t u b,
      )
  unfolding run_debit update_user insert_transaction ◌>>=◌
  run_debit_found u e s = rw (
    find-has_funds i (pos 0 -ℤ a) a b.users u e s,
    update-has_funds i (pos 0 -ℤ a) a b.users u e s,
  )
