-- ===== src/Wallet/Requests.antt =====
-- The requests that move coins, and a history of them.
use backend_htssclub.Base.{ℕ, Option, List, [], ◌∷◌}
use backend_htssclub.Base.Int.{ℤ}
use backend_htssclub.Common.Enums.{TxType}
use backend_htssclub.Common.Action.{Action, pure, ◌>>=◌}
use backend_htssclub.Wallet.{
  Bank, Ref, Receipt, credit, debit, spend, confirm_topup, transfer, admin_adjust,
}

pub data Request : Type 0 where
  credit_user debit_user : ℕ → ℤ → TxType → Option Ref → Request
  spend_coins : ℕ → ℤ → Option Ref → Request
  top_up : ℕ → ℤ → Ref → Request
  send : ℕ → ℕ → ℤ → ℕ → Request
  adjust : ℕ → ℤ → Request

-- The receipts of a request, latest first.
unfoldable pub handle : Request → Action Bank (List Receipt)
handle (credit_user i a type ref) = do r ← credit i a type ref; pure (r ∷ [])
handle (debit_user i a type ref) = do r ← debit i a type ref; pure (r ∷ [])
handle (spend_coins i a ref) = do r ← spend i a ref; pure (r ∷ [])
handle (top_up i a ref) = do r ← confirm_topup i a ref; pure (r ∷ [])
handle (send from to a t) = do r ← transfer from to a t; pure (r.1 ∷ r.0 ∷ [])
handle (adjust i a) = do r ← admin_adjust i a; pure (r ∷ [])

-- The bank after a list of requests, served in turn; a request that throws is answered with its
-- error.
unfoldable pub serve_all : List Request → Bank → Bank
serve_all [] b = b
serve_all (r ∷ rs) b = serve_all rs (handle r b).1
