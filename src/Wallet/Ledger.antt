-- ===== src/Wallet/Ledger.antt =====
-- The books of the wallet: what every sequence of requests keeps.
use backend_htssclub.Base.{
  ℕ, ◌≡◌, inl, inr, false, Option, none, some, List, [], ◌∷◌, arith, ◌==◌, if◌then◌else◌,
  Bool-cases, Option-cases,
}
use backend_htssclub.Base.Int.{ℤ, pos, ◌+ℤ◌, ◌-ℤ◌, ◌≤ℤ◌, leb_ℤ, int_laws}
use backend_htssclub.Common.Enums.{TxType}
use backend_htssclub.Common.Action.{Action}
use backend_htssclub.Common.Action.Keeps.{Keeps, Keeps-guarded, keeps_rules}
use backend_htssclub.Wallet.{
  User, Bank, Ref, Transaction, Receipt, find_by_id, run_credit, run_debit, credit, debit,
  credit_in_session, debit_in_session, spend, confirm_topup, run_transfer, transfer, admin_adjust,
  commit_and_emit, emit_wallet_event,
}
use backend_htssclub.Wallet.Requests.{
  Request, credit_user, debit_user, spend_coins, top_up, send, adjust, handle, serve_all,
}
use backend_htssclub.Wallet.Users.{
  HasUniqueIds, AreNonneg, balance_of, balance_of-update, HasUniqueIds-update, AreNonneg-update,
}
use backend_htssclub.Wallet.Moves.{
  booked, run_credit_missing, run_credit_found, run_debit_missing, run_debit_short, run_debit_found,
}

-- What the recorded transactions of a user come to.
unfoldable pub booked_sum : ℕ → List Transaction → ℤ
booked_sum i [] = pos 0
booked_sum i (t ∷ ts) = (if t.user_id == i then t.amount else pos 0) +ℤ booked_sum i ts

-- Identifiers are unique, no balance is negative, and every balance is the opening one plus the
-- transactions of its user.
pub record IsSound (opening : ℕ → ℤ) (b : Bank) : Type 0 where
  pub unique : HasUniqueIds b.users
  pub nonneg : AreNonneg b.users
  pub booked_up : (j : ℕ) → balance_of j b.users ≡ opening j +ℤ booked_sum j b.transactions

find-nonneg :
    (i : ℕ) (us : List User) (u : User)
    → find_by_id i us ≡ some u
    → AreNonneg us
    → pos 0 ≤ℤ u.balance
unfolding find_by_id
find-nonneg i [] u e h = ground arith
find-nonneg i (v ∷ us) u e h = ground (arith, find-nonneg i us u)

module _ (o : ℕ → ℤ) where
  abbrev Sound : Bank → Type 0
  Sound b = IsSound o b

  booked-Sound :
      (i : ℕ) (a : ℤ) (type : TxType) (ref : Option Ref) (t : Option ℕ) (u : User) (b : Bank)
      → find_by_id i b.users ≡ some u
      → pos 0 ≤ℤ u.balance +ℤ a
      → Sound b
      → Sound (booked i a type ref t u b)
  unfolding booked_sum
  booked-Sound i a type ref t u b e p s = record {
    unique = HasUniqueIds-update i a b.users s.unique;
    nonneg = AreNonneg-update i a b.users u e s.nonneg p;
    booked_up = λ j. rw (balance_of-update i a j b.users u e) (rw (s.booked_up j) (omega int_laws));
  }

  run_credit-Sound :
      (i : ℕ) (a : ℤ) (type : TxType) (ref : Option Ref) (t : Option ℕ)
      → leb_ℤ a (pos 0) ≡ false
      → Keeps Sound (run_credit i a type ref t)
  run_credit-Sound i a type ref t p = record {
    at = λ b s. elim (Option-cases (find_by_id i b.users)) [
      | inl e ↦ rw (run_credit_missing i a type ref t b e) s
      | inr (u, e) ↦
          let old = find-nonneg i b.users u e s.nonneg in
          rw (run_credit_found i a type ref t b u e)
            (booked-Sound i a type ref t u b e (grind int_laws) s)
    ];
  }

  run_debit-Sound :
      (i : ℕ) (a : ℤ) (type : TxType) (ref : Option Ref) (t : Option ℕ)
      → Keeps Sound (run_debit i a type ref t)
  run_debit-Sound i a type ref t = record {
    at = λ b s. elim (Option-cases (find_by_id i b.users)) [
      | inl e ↦ rw (run_debit_missing i a type ref t b e) s
      | inr (u, e) ↦ elim (Bool-cases (leb_ℤ a u.balance)) [
        | inl enough ↦
            rw (run_debit_found i a type ref t b u e enough)
              (booked-Sound i (pos 0 -ℤ a) type ref t u b e (grind int_laws) s)
        | inr short ↦ rw (run_debit_short i a type ref t b u s.unique e short) s
      ]
    ];
  }

  emit-Sound : (i : ℕ) (r : Receipt) → Keeps Sound (emit_wallet_event i r)
  unfolding emit_wallet_event
  emit-Sound i r = record {
    at = λ b s. record { unique = s.unique; nonneg = s.nonneg; booked_up = s.booked_up };
  }

  ruleset sound_rules = (keeps_rules, emit-Sound, run_debit-Sound)

  commit-Sound :
      (i : ℕ) (run : Action Bank Receipt) → Keeps Sound run → Keeps Sound (commit_and_emit i run)
  unfolding commit_and_emit
  commit-Sound i run h = search sound_rules

  credit-Sound :
      (i : ℕ) (a : ℤ) (type : TxType) (ref : Option Ref) → Keeps Sound (credit i a type ref)
  unfolding credit
  credit-Sound i a type ref =
      Keeps-guarded _ _ _ (λ p. commit-Sound i _ (run_credit-Sound i a type ref none p))

  debit-Sound :
      (i : ℕ) (a : ℤ) (type : TxType) (ref : Option Ref) → Keeps Sound (debit i a type ref)
  unfolding debit
  debit-Sound i a type ref = search (sound_rules, commit-Sound)

  admin_adjust-Sound : (i : ℕ) (a : ℤ) → Keeps Sound (admin_adjust i a)
  unfolding admin_adjust
  admin_adjust-Sound i a = search (sound_rules, credit-Sound, debit-Sound)

  credit_in_session-Sound :
      (i : ℕ) (a : ℤ) (type : TxType) (ref : Option Ref) (t : Option ℕ)
      → Keeps Sound (credit_in_session i a type ref t)
  unfolding credit_in_session
  credit_in_session-Sound i a type ref t =
      Keeps-guarded _ _ _ (λ p. run_credit-Sound i a type ref t p)

  debit_in_session-Sound :
      (i : ℕ) (a : ℤ) (type : TxType) (ref : Option Ref) (t : Option ℕ)
      → Keeps Sound (debit_in_session i a type ref t)
  unfolding debit_in_session
  debit_in_session-Sound i a type ref t = search sound_rules

  transfer-Sound : (from to : ℕ) (a : ℤ) (t : ℕ) → Keeps Sound (transfer from to a t)
  unfolding transfer run_transfer
  transfer-Sound from to a t =
      search (sound_rules, debit_in_session-Sound, credit_in_session-Sound) depth 9

handle-IsSound : (o : ℕ → ℤ) (r : Request) → Keeps (Sound o) (handle r)
unfolding handle spend confirm_topup
handle-IsSound o (credit_user i a type ref) = search (keeps_rules, credit-Sound o i a type ref)
handle-IsSound o (debit_user i a type ref) = search (keeps_rules, debit-Sound o i a type ref)
handle-IsSound o (spend_coins i a ref) = search (keeps_rules, debit-Sound o i a TxType.spend ref)
handle-IsSound o (top_up i a ref) = search (keeps_rules, credit-Sound o i a TxType.topup (some ref))
handle-IsSound o (send from to a t) = search (keeps_rules, transfer-Sound o from to a t)
handle-IsSound o (adjust i a) = search (keeps_rules, admin_adjust-Sound o i a)

-- Whatever requests are served, in any order and with any outcome: identifiers stay unique, no
-- balance becomes negative, and every balance stays the opening balance of its user plus the sum
-- of the amounts recorded for that user.
pub serve_all-IsSound :
    (o : ℕ → ℤ) (rs : List Request) (b : Bank) → IsSound o b → IsSound o (serve_all rs b)
unfolding serve_all
serve_all-IsSound o [] b s = s
serve_all-IsSound o (r ∷ rs) b s =
    serve_all-IsSound o rs (handle r b).1 ((handle-IsSound o r).at b s)
