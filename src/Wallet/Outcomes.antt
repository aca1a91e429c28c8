-- ===== src/Wallet/Outcomes.antt =====
-- How the requests of the wallet end: what they change, and that a failed one changes nothing.
use backend_htssclub.Base.{
  ℕ, ◌≡◌, ◌≢◌, refl, sym, ◌∙◌, true, false, Option, none, some, ◌∷◌, arith, ◌==◌,
}
use backend_htssclub.Base.Int.{ℤ, pos, ◌+ℤ◌, ◌-ℤ◌, leb_ℤ, int_laws}
use backend_htssclub.Common.Enums.{TxType}
use backend_htssclub.Common.Action.{
  Action, Exception, ok, err, ◌>>=◌, with_transaction, not_found, bad_request, user_not_found,
  insufficient_balance, amount_not_positive,
}
use backend_htssclub.Common.Action.Atomic.{IsAtomic, IsTotal, atomic_rules}
use backend_htssclub.Common.Action.Steps.{
  bind_ok, bind_err, transaction_ok, transaction_err, guard_passed,
}
use backend_htssclub.Wallet.{
  User, Bank, Ref, Receipt, user_ref, find_by_id, inc_balance, receipt, debit, credit,
  credit_in_session, debit_in_session, run_transfer, transfer, spend, confirm_topup, admin_adjust,
  commit_and_emit, emit_wallet_event,
}
use backend_htssclub.Wallet.Requests.{
  Request, credit_user, debit_user, spend_coins, top_up, send, adjust, handle,
}
use backend_htssclub.Wallet.Users.{
  HasUniqueIds, balance_of, balance_of-found, total, total-update, find_by_id-update,
  find_by_id-update_ne,
}
use backend_htssclub.Wallet.Moves.{
  booked, run_credit_found, run_debit_missing, run_debit_short, run_debit_found,
}

emit-IsTotal : (i : ℕ) (r : Receipt) → IsTotal (emit_wallet_event i r)
unfolding emit_wallet_event
emit-IsTotal i r = record { value = λ _. tt; returns = λ b. refl }

commit-IsAtomic : (i : ℕ) (run : Action Bank Receipt) → IsAtomic (commit_and_emit i run)
unfolding commit_and_emit
commit-IsAtomic i run = search (atomic_rules, emit-IsTotal)

credit-IsAtomic :
    (i : ℕ) (a : ℤ) (type : TxType) (ref : Option Ref) → IsAtomic (credit i a type ref)
unfolding credit
credit-IsAtomic i a type ref = search (atomic_rules, commit-IsAtomic)

debit-IsAtomic : (i : ℕ) (a : ℤ) (type : TxType) (ref : Option Ref) → IsAtomic (debit i a type ref)
unfolding debit
debit-IsAtomic i a type ref = search (atomic_rules, commit-IsAtomic)

transfer-IsAtomic : (from to : ℕ) (a : ℤ) (t : ℕ) → IsAtomic (transfer from to a t)
unfolding transfer
transfer-IsAtomic from to a t = search (atomic_rules, emit-IsTotal) depth 9

adjust-IsAtomic : (i : ℕ) (a : ℤ) → IsAtomic (admin_adjust i a)
unfolding admin_adjust
adjust-IsAtomic i a = search (atomic_rules, credit-IsAtomic, debit-IsAtomic)

-- A request that throws, for whatever reason, leaves every balance, the transactions and the
-- emitted events as they were: a transfer whose second half fails takes nothing from the sender.
pub handle-IsAtomic : (r : Request) → IsAtomic (handle r)
unfolding handle spend confirm_topup
handle-IsAtomic (credit_user i a type ref) = search (atomic_rules, credit-IsAtomic i a type ref)
handle-IsAtomic (debit_user i a type ref) = search (atomic_rules, debit-IsAtomic i a type ref)
handle-IsAtomic (spend_coins i a ref) = search (atomic_rules, debit-IsAtomic i a TxType.spend ref)
handle-IsAtomic (top_up i a ref) =
    search (atomic_rules, credit-IsAtomic i a TxType.topup (some ref))
handle-IsAtomic (send from to a t) = search (atomic_rules, transfer-IsAtomic from to a t)
handle-IsAtomic (adjust i a) = search (atomic_rules, adjust-IsAtomic i a)

-- The bank with one more event.
abbrev pub announced : ℕ → Receipt → Bank → Bank
announced i r b = record b {
  emitted =
      record { to_user = i; balance = r.balance_after; transaction = r.transaction } ∷ b.emitted;
}

pub commit_err :
    (i : ℕ) (run : Action Bank Receipt) (b : Bank) {e : Exception} {b' : Bank}
    → run b ≡ (err e, b')
    → commit_and_emit i run b ≡ (err e, b)
unfolding commit_and_emit
commit_err i run b h = bind_err _ _ b (transaction_err run b h)

pub commit_ok :
    (i : ℕ) (run : Action Bank Receipt) (b : Bank) {r : Receipt} {b' : Bank}
    → run b ≡ (ok r, b')
    → commit_and_emit i run b ≡ (ok r, announced i r b')
unfolding commit_and_emit emit_wallet_event ◌>>=◌
commit_ok i run b h = bind_ok (with_transaction run) _ b (transaction_ok run b h)

module _ (i : ℕ) (a : ℤ) (type : TxType) (ref : Option Ref) (b : Bank) where
  -- How `debit` must end, by the amount and the user.
  pub record DebitOutcome : Type 0 where
    pub not_positive :
        leb_ℤ a (pos 0) ≡ true → debit i a type ref b ≡ (err (bad_request amount_not_positive), b)
    pub missing :
        leb_ℤ a (pos 0) ≡ false
        → find_by_id i b.users ≡ none
        → debit i a type ref b ≡ (err (not_found user_not_found), b)
    pub short :
        (u : User)
        → leb_ℤ a (pos 0) ≡ false
        → find_by_id i b.users ≡ some u
        → leb_ℤ a u.balance ≡ false
        → debit i a type ref b ≡ (err (bad_request insufficient_balance), b)
    pub paid :
        (u : User)
        → leb_ℤ a (pos 0) ≡ false
        → find_by_id i b.users ≡ some u
        → leb_ℤ a u.balance ≡ true
        → let (r, b') = debit i a type ref b in
          (r ≡ ok (receipt i (pos 0 -ℤ a) type ref none (inc_balance (pos 0 -ℤ a) u)))
          × (balance_of i b'.users ≡ u.balance -ℤ a)
          × ((j : ℕ) → j ≢ i → find_by_id j b'.users ≡ find_by_id j b.users)
          × (total b'.users ≡ total b.users -ℤ a)

  -- `debit` on every branch: a non-positive amount, an unknown user and a short balance are
  -- refused with their own error and change nothing; otherwise exactly the amount leaves the
  -- balance of that user, and no other user is touched.
  pub debit_outcome : HasUniqueIds b.users → DebitOutcome
  unfolding debit ◌>>=◌
  debit_outcome unique = record {
    not_positive = λ p. rw p;
    missing = λ p e. rw p (commit_err i _ b (run_debit_missing i a type ref none b e));
    short = λ u p e s. rw p (commit_err i _ b (run_debit_short i a type ref none b u unique e s));
    paid = λ u p e s.
        rw (p, commit_ok i _ b (run_debit_found i a type ref none b u e s))
          (
            refl,
            rw (balance_of-found i _ _ (find_by_id-update i (pos 0 -ℤ a) b.users u e))
                (omega int_laws),
            (λ j ne. find_by_id-update_ne i (pos 0 -ℤ a) j b.users ne),
            rw (total-update i (pos 0 -ℤ a) b.users u e) (omega int_laws),
          );
  }

module _ (from to : ℕ) (a : ℤ) (t : ℕ) (b : Bank) (u v : User) where
  abbrev sent : Bank
  sent = booked from (pos 0 -ℤ a) TxType.transfer (some (user_ref to)) (some t) u b

  abbrev received : Bank
  received = booked to a TxType.transfer (some (user_ref from)) (some t) v sent

  abbrev receipts : Receipt × Receipt
  receipts = (
    receipt from (pos 0 -ℤ a) TxType.transfer (some (user_ref to)) (some t)
        (inc_balance (pos 0 -ℤ a) u),
    receipt to a TxType.transfer (some (user_ref from)) (some t) (inc_balance a v),
  )

  module _ (ne : from ≢ to) (p : leb_ℤ a (pos 0) ≡ false) (eu : find_by_id from b.users ≡ some u)
      (ev : find_by_id to b.users ≡ some v) (enough : leb_ℤ a u.balance ≡ true) where
    recipient_found : find_by_id to sent.users ≡ some v
    recipient_found = find_by_id-update_ne from (pos 0 -ℤ a) to b.users (λ e. ne (sym e)) ∙ ev

    run_transfer_ok : run_transfer from to a t b ≡ (ok receipts, received)
    unfolding run_transfer debit_in_session credit_in_session ◌>>=◌
    run_transfer_ok =
        let debit_type = TxType.transfer in
        let debited =
          guard_passed _ _ _ b p
          ∙ run_debit_found from a debit_type (some (user_ref to)) (some t) b u eu enough in
        let credited =
          guard_passed _ _ _ sent p
          ∙ run_credit_found to a debit_type (some (user_ref from)) (some t) sent v
              recipient_found in
        bind_ok (debit_in_session from a debit_type (some (user_ref to)) (some t)) _ b debited
        ∙ bind_ok (credit_in_session to a debit_type (some (user_ref from)) (some t)) _ sent
            credited

    transfer_ok :
        transfer from to a t b
        ≡ (ok receipts, announced to receipts.1 (announced from receipts.0 received))
    unfolding transfer emit_wallet_event ◌>>=◌
    transfer_ok =
        let other : (from == to) ≡ false = ground arith in
        guard_passed _ _ _ b other
        ∙ bind_ok (with_transaction (run_transfer from to a t)) _ b
            (transaction_ok (run_transfer from to a t) b run_transfer_ok)

  -- What a transfer must have done to the bank.
  pub record Moved (b' : Bank) : Type 0 where
    pub sender : balance_of from b'.users ≡ u.balance -ℤ a
    pub recipient : balance_of to b'.users ≡ v.balance +ℤ a
    pub others : (j : ℕ) → j ≢ from → j ≢ to → find_by_id j b'.users ≡ find_by_id j b.users
    pub conserved : total b'.users ≡ total b.users

  -- Between two known users a positive amount that the sender's balance covers is moved: the
  -- call returns, the sender has it less, the recipient has it more, no third user is touched and
  -- the sum of all balances stays.
  pub transfer_moves :
      from ≢ to
      → leb_ℤ a (pos 0) ≡ false
      → find_by_id from b.users ≡ some u
      → find_by_id to b.users ≡ some v
      → leb_ℤ a u.balance ≡ true
      → ((r : Receipt × Receipt) × ((transfer from to a t b).0 ≡ ok r))
        × Moved (transfer from to a t b).1
  transfer_moves ne p eu ev enough =
      let there = recipient_found ne p eu ev enough in
      rw (transfer_ok ne p eu ev enough) (
        (receipts, refl),
        record {
          sender =
              balance_of-found from _ _ (
                find_by_id-update_ne to a from sent.users ne
                ∙ find_by_id-update from (pos 0 -ℤ a) b.users u eu)
              ∙ omega int_laws;
          recipient = balance_of-found to _ _ (find_by_id-update to a sent.users v there);
          others = λ j nf nt.
              find_by_id-update_ne to a j sent.users nt
              ∙ find_by_id-update_ne from (pos 0 -ℤ a) j b.users nf;
          conserved =
              total-update to a sent.users v there
              ∙ rw (total-update from (pos 0 -ℤ a) b.users u eu) (omega int_laws);
        },
      )
