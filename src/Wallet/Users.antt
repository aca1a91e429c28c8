-- ===== src/Wallet/Users.antt =====
-- The collection `users` under the updates of the wallet.
use backend_htssclub.Base.{
  ℕ, ◌≡◌, ◌≢◌, refl, true, false, Option, inl, inr, none, some, List, [], ◌∷◌, arith, Bool-cases,
  ◌==◌, if◌then◌else◌,
}
use backend_htssclub.Base.Int.{ℤ, pos, ◌+ℤ◌, ◌≤ℤ◌, leb_ℤ, int_laws}
use backend_htssclub.Wallet.{
  User, find_by_id, find_one_and_update, update_one, has_id, has_funds, inc_balance,
}

-- `_id` is a primary key.
abbrev pub HasUniqueIds : List User → Type 0
HasUniqueIds [] = Unit
HasUniqueIds (u ∷ us) = (find_by_id u.id us ≡ none) × HasUniqueIds us

abbrev pub AreNonneg : List User → Type 0
AreNonneg [] = Unit
AreNonneg (u ∷ us) = (pos 0 ≤ℤ u.balance) × AreNonneg us

-- The coins of all users.
unfoldable pub total : List User → ℤ
total [] = pos 0
total (u ∷ us) = u.balance +ℤ total us

-- The balance of one user, 0 for an unknown one.
abbrev pub balance_or_zero : Option User → ℤ
balance_or_zero none = pos 0
balance_or_zero (some u) = u.balance

unfoldable pub balance_of : ℕ → List User → ℤ
balance_of i us = balance_or_zero (find_by_id i us)

pub balance_of-found :
    (i : ℕ) (us : List User) (u : User) → find_by_id i us ≡ some u → balance_of i us ≡ u.balance
unfolding balance_of
balance_of-found i us u e = rw e

module _ (i : ℕ) (a : ℤ) where
  pub find-has_id-none :
      (us : List User)
      → find_by_id i us ≡ none
      → find_one_and_update (has_id i) (inc_balance a) us ≡ none
  unfolding find_by_id find_one_and_update
  find-has_id-none [] e = refl
  find-has_id-none (u ∷ us) e = ground (arith, find-has_id-none us)

  pub find-has_id-some :
      (us : List User) (u : User)
      → find_by_id i us ≡ some u
      → find_one_and_update (has_id i) (inc_balance a) us ≡ some (inc_balance a u)
  unfolding find_by_id find_one_and_update
  find-has_id-some [] u e = ground arith
  find-has_id-some (v ∷ us) u e = ground (arith, find-has_id-some us u)

  pub update-has_id-none :
      (us : List User) → find_by_id i us ≡ none → update_one (has_id i) (inc_balance a) us ≡ us
  unfolding find_by_id update_one
  update-has_id-none [] e = refl
  update-has_id-none (u ∷ us) e = ground (arith, update-has_id-none us)

  pub find_by_id-update :
      (us : List User) (u : User)
      → find_by_id i us ≡ some u
      → find_by_id i (update_one (has_id i) (inc_balance a) us) ≡ some (inc_balance a u)
  unfolding find_by_id update_one
  find_by_id-update [] u e = ground arith
  find_by_id-update (v ∷ us) u e = ground (arith, find_by_id-update us u)

  pub find_by_id-update_ne :
      (j : ℕ) (us : List User)
      → j ≢ i
      → find_by_id j (update_one (has_id i) (inc_balance a) us) ≡ find_by_id j us
  unfolding find_by_id update_one
  find_by_id-update_ne j [] ne = refl
  find_by_id-update_ne j (v ∷ us) ne = ground (arith, find_by_id-update_ne j us)

  pub balance_of-update :
      (j : ℕ) (us : List User) (u : User)
      → find_by_id i us ≡ some u
      → balance_of j (update_one (has_id i) (inc_balance a) us)
        ≡ balance_of j us +ℤ (if i == j then a else pos 0)
  unfolding balance_of
  balance_of-update j us u e = elim (Bool-cases (i == j)) [
    | inl same ↦
        let k : i ≡ j = ground arith in rw same (rw (← k) (rw (find_by_id-update us u e, e)))
    | inr other ↦
        rw other (rw (find_by_id-update_ne j us (λ k. ground (arith, k))) (omega int_laws))
  ]

  pub total-update :
      (us : List User) (u : User)
      → find_by_id i us ≡ some u
      → total (update_one (has_id i) (inc_balance a) us) ≡ total us +ℤ a
  unfolding find_by_id update_one total
  total-update [] u e = ground arith
  total-update (v ∷ us) u e = grind (int_laws, total-update us u)

  pub HasUniqueIds-update :
      (us : List User) → HasUniqueIds us → HasUniqueIds (update_one (has_id i) (inc_balance a) us)
  unfolding update_one
  HasUniqueIds-update [] h = tt
  HasUniqueIds-update (v ∷ us) h =
      ground (arith, HasUniqueIds-update us h.1, find_by_id-update_ne v.id us)

  pub AreNonneg-update :
      (us : List User) (u : User)
      → find_by_id i us ≡ some u
      → AreNonneg us
      → pos 0 ≤ℤ u.balance +ℤ a
      → AreNonneg (update_one (has_id i) (inc_balance a) us)
  unfolding find_by_id update_one
  AreNonneg-update [] u e h p = tt
  AreNonneg-update (v ∷ us) u e h p = ground (arith, AreNonneg-update us u)

  -- The filter of `debit` picks the same user when the balance covers the amount,
  module _ (need : ℤ) where
    pub update-has_funds :
        (us : List User) (u : User)
        → find_by_id i us ≡ some u
        → leb_ℤ need u.balance ≡ true
        → update_one (has_funds i need) (inc_balance a) us
          ≡ update_one (has_id i) (inc_balance a) us
    unfolding find_by_id update_one
    update-has_funds [] u e h = refl
    update-has_funds (v ∷ us) u e h = ground (arith, update-has_funds us u)

    pub find-has_funds :
        (us : List User) (u : User)
        → find_by_id i us ≡ some u
        → leb_ℤ need u.balance ≡ true
        → find_one_and_update (has_funds i need) (inc_balance a) us ≡ some (inc_balance a u)
    unfolding find_by_id find_one_and_update
    find-has_funds [] u e h = ground arith
    find-has_funds (v ∷ us) u e h = ground (arith, find-has_funds us u)

    -- and nobody when the user is missing,
    pub no_funds_missing :
        (us : List User)
        → find_by_id i us ≡ none
        → (find_one_and_update (has_funds i need) (inc_balance a) us ≡ none)
          × (update_one (has_funds i need) (inc_balance a) us ≡ us)
    unfolding find_by_id find_one_and_update update_one
    no_funds_missing [] e = (refl, refl)
    no_funds_missing (v ∷ us) e = ground (arith, no_funds_missing us)

    -- or the balance is short.
    pub no_funds_short :
        (us : List User) (u : User)
        → HasUniqueIds us
        → find_by_id i us ≡ some u
        → leb_ℤ need u.balance ≡ false
        → (find_one_and_update (has_funds i need) (inc_balance a) us ≡ none)
          × (update_one (has_funds i need) (inc_balance a) us ≡ us)
    unfolding find_by_id find_one_and_update update_one
    no_funds_short [] u h e s = (refl, refl)
    no_funds_short (v ∷ us) u h e s = ground (arith, no_funds_short us u, no_funds_missing us)
