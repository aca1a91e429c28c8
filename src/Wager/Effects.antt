-- ===== src/Wager/Effects.antt =====
-- What the escrow operations do to the bank.
use backend_htssclub.Base.{
  ℕ, ◌+◌, ◌≡◌, refl, ◌∙◌, inl, inr, ◌⊎◌, true, false, Bool, Bool-cases, Option-cases, none, some,
  List, [], ◌∷◌, arith,
}
use backend_htssclub.Base.Int.{ℤ, pos, ◌+ℤ◌, ◌-ℤ◌, leb_ℤ, int_laws}
use backend_htssclub.Common.Enums.{TxType, game_stake, game_payout, game_refund}
use backend_htssclub.Common.Action.{Action, Exception, ok, err, ◌>>=◌, ◌>>◌, ignore, pure}
use backend_htssclub.Common.Action.Steps.{bind_ok, bind_err, guard_passed, guard_threw, ignore_ok}
use backend_htssclub.Wallet.{
  User, Bank, Ref, Receipt, find_by_id, credit, debit, run_credit, run_debit, update_one, has_id,
  inc_balance,
}
use backend_htssclub.Wallet.Users.{HasUniqueIds, total, total-update, HasUniqueIds-update}
use backend_htssclub.Wallet.Moves.{
  run_credit_found, run_debit_found, run_debit_missing, run_debit_short,
}
use backend_htssclub.Wallet.Outcomes.{commit_ok, commit_err, announced}
use backend_htssclub.Wager.{collect_stake, payout, refund, refund_many}

unfoldable pub is_known : ℕ → List User → Bool
is_known i us = elim (find_by_id i us) [ none ↦ false | some u ↦ true ]

-- From `us` to `us'` the coins grew by `a`, and no user is lost.
pub record Shifted (a : ℤ) (us us' : List User) : Type 0 where
  pub moved : total us' ≡ total us +ℤ a
  pub unique : HasUniqueIds us'
  pub keeps : (j : ℕ) → is_known j us ≡ true → is_known j us' ≡ true

is_known-update :
    (i j : ℕ) (a : ℤ) (us : List User)
    → is_known j us ≡ true
    → is_known j (update_one (has_id i) (inc_balance a) us) ≡ true
unfolding is_known find_by_id update_one
is_known-update i j a [] h = h
is_known-update i j a (u ∷ us) h = ground (arith, is_known-update i j a us)

is_known-found :
    (i : ℕ) (us : List User) (u : User) → find_by_id i us ≡ some u → is_known i us ≡ true
unfolding is_known
is_known-found i us u e = rw (e, is_known) refl

update-Shifted :
    (i : ℕ) (a : ℤ) (us : List User) (u : User)
    → HasUniqueIds us
    → find_by_id i us ≡ some u
    → Shifted a us (update_one (has_id i) (inc_balance a) us)
update-Shifted i a us u h e = record {
  moved = total-update i a us u e;
  unique = HasUniqueIds-update i a us h;
  keeps = λ j. is_known-update i j a us;
}

-- A stake is refused and nothing changed, or exactly the amount left the balances.
abbrev pub Collected : ℕ → ℤ → Ref → Bank → Type 0
Collected i a ref b =
    ((e : Exception) × (collect_stake i a ref b ≡ (err e, b)))
    ⊎ ((b' : Bank) × (collect_stake i a ref b ≡ (ok tt, b'))
        × Shifted (pos 0 -ℤ a) b.users b'.users
        × (is_known i b'.users ≡ true))

module _ (i : ℕ) (a : ℤ) (ref : Ref) (b : Bank) where
  module _ (positive : leb_ℤ a (pos 0) ≡ false) where
    debit_refused :
        {e : Exception}
        → run_debit i a game_stake (some ref) none b ≡ (err e, b)
        → debit i a game_stake (some ref) b ≡ (err e, b)
    unfolding debit
    debit_refused h = guard_passed _ _ _ b positive ∙ commit_err i _ b h

    debit_done :
        {r : Receipt} {b' : Bank}
        → run_debit i a game_stake (some ref) none b ≡ (ok r, b')
        → debit i a game_stake (some ref) b ≡ (ok r, announced i r b')
    unfolding debit
    debit_done h = guard_passed _ _ _ b positive ∙ commit_ok i _ b h

    stake_refused :
        {e : Exception}
        → run_debit i a game_stake (some ref) none b ≡ (err e, b)
        → collect_stake i a ref b ≡ (err e, b)
    unfolding collect_stake
    stake_refused h =
        guard_passed _ _ _ b positive
        ∙ bind_err (debit i a game_stake (some ref)) _ b (debit_refused h)

    stake_taken :
        {r : Receipt} {b' : Bank}
        → run_debit i a game_stake (some ref) none b ≡ (ok r, b')
        → collect_stake i a ref b ≡ (ok tt, announced i r b')
    unfolding collect_stake ◌>>=◌
    stake_taken h =
        guard_passed _ _ _ b positive ∙ bind_ok (debit i a game_stake (some ref)) _ b (debit_done h)

    credit_done :
        (type : TxType) {r : Receipt} {b' : Bank}
        → run_credit i a type (some ref) none b ≡ (ok r, b')
        → credit i a type (some ref) b ≡ (ok r, announced i r b')
    unfolding credit
    credit_done type h = guard_passed _ _ _ b positive ∙ commit_ok i _ b h

  stake_low : leb_ℤ a (pos 0) ≡ true → (e : Exception) × (collect_stake i a ref b ≡ (err e, b))
  unfolding collect_stake
  stake_low low = (_, guard_threw _ _ _ b low)

  pub collect_stake_cases : HasUniqueIds b.users → Collected i a ref b
  collect_stake_cases h = elim (Bool-cases (leb_ℤ a (pos 0))) [
    | inl low ↦ inl (stake_low low)
    | inr high ↦ elim (Option-cases (find_by_id i b.users)) [
      | inl missing ↦
          inl (_, stake_refused high (run_debit_missing i a game_stake (some ref) none b missing))
      | inr (u, e) ↦ elim (Bool-cases (leb_ℤ a u.balance)) [
        | inl enough ↦ inr (
          _,
          stake_taken high (run_debit_found i a game_stake (some ref) none b u e enough),
          update-Shifted i (pos 0 -ℤ a) b.users u h e,
          is_known-update i i (pos 0 -ℤ a) b.users (is_known-found i b.users u e),
        )
        | inr short ↦
            inl
              (_, stake_refused high (run_debit_short i a game_stake (some ref) none b u h e short))
      ]
    ]
  ]

  -- A credit of a game to a known user returns.
  abbrev pub Paid : Action Bank (Unit {0}) → Type 0
  Paid m = (b' : Bank) × (m b ≡ (ok tt, b')) × Shifted a b.users b'.users

  credit_pays :
      (type : TxType)
      → HasUniqueIds b.users
      → is_known i b.users ≡ true
      → leb_ℤ a (pos 0) ≡ false
      → Paid (credit i a type (some ref) >> pure tt)
  unfolding is_known ◌>>=◌
  credit_pays type h known high = elim (Option-cases (find_by_id i b.users)) [
    | inl missing ↦ absurd (ground arith)
    | inr (u, e) ↦ (
      _,
      bind_ok (credit i a type (some ref)) _ b
          (credit_done high type (run_credit_found i a type (some ref) none b u e)),
      update-Shifted i a b.users u h e,
    )
  ]

  pub refund_pays :
      HasUniqueIds b.users
      → is_known i b.users ≡ true
      → leb_ℤ a (pos 0) ≡ false
      → Paid (refund i a ref)
  unfolding refund
  refund_pays h known high = rw high (credit_pays game_refund h known high)

  pub payout_pays :
      HasUniqueIds b.users
      → is_known i b.users ≡ true
      → leb_ℤ a (pos 0) ≡ false
      → Paid (payout i a ref)
  unfolding payout
  payout_pays h known high = rw high (credit_pays game_payout h known high)

-- Everyone of these is a user.
abbrev pub AllKnown : List User → List ℕ → Type 0
AllKnown us [] = Unit
AllKnown us (i ∷ is) = (is_known i us ≡ true) × AllKnown us is

pub AllKnown-keeps :
    (us us' : List User) (is : List ℕ)
    → ((j : ℕ) → is_known j us ≡ true → is_known j us' ≡ true)
    → AllKnown us is
    → AllKnown us' is
AllKnown-keeps us us' [] h known = tt
AllKnown-keeps us us' (i ∷ is) h known = (h i known.0, AllKnown-keeps us us' is h known.1)

-- What is owed to these, at one amount each.
abbrev pub owed : ℕ → List ℕ → ℕ
owed a [] = 0
owed a (i ∷ is) = a + owed a is

-- Refunds to known users all arrive.
pub refund_many_pays :
    (is : List ℕ) (a : ℕ) (ref : Ref) (b : Bank)
    → HasUniqueIds b.users
    → AllKnown b.users is
    → leb_ℤ (pos a) (pos 0) ≡ false
    → (b' : Bank) × (refund_many is (pos a) ref b ≡ (ok tt, b'))
      × Shifted (pos (owed a is)) b.users b'.users
unfolding refund_many ◌>>=◌
refund_many_pays [] a ref b h known high =
    (b, refl, record { moved = omega int_laws; unique = h; keeps = λ j k. k })
refund_many_pays (i ∷ is) a ref b h known high =
    let (b1, paid, shifted) = refund_pays i (pos a) ref b h known.0 high in
    let (b2, rest, more) =
      refund_many_pays is a ref b1 shifted.unique
        (AllKnown-keeps b.users b1.users is shifted.keeps known.1) high in
    (
      b2,
      bind_ok (ignore (refund i (pos a) ref)) (λ x. refund_many is (pos a) ref) b
            (ignore_ok (refund i (pos a) ref) b paid)
          ∙ rest,
      record {
        moved = more.moved ∙ rw shifted.moved (omega int_laws);
        unique = more.unique;
        keeps = λ j k. more.keeps j (shifted.keeps j k);
      },
    )
