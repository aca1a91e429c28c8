-- ===== src/Wager.antt =====
-- src/games/common/wager.service.ts: the escrow of stakes over the wallet.
pub mod Effects
use backend_htssclub.Base.{ℕ, some, List, [], ◌∷◌, if◌then◌else◌}
use backend_htssclub.Base.Int.{ℤ, pos, leb_ℤ}
use backend_htssclub.Common.Enums.{game_stake, game_payout, game_refund}
use backend_htssclub.Common.Action.{Action, pure, throw_if, ignore, ◌>>◌, bad_request, bad_bet}
use backend_htssclub.Wallet.{Bank, Ref, credit, debit}

unfoldable pub collect_stake : ℕ → ℤ → Ref → Action Bank (Unit {0})
collect_stake user amount ref = do
  throw_if (leb_ℤ amount (pos 0)) (bad_request bad_bet)
  debit user amount game_stake (some ref)
  pure tt

-- A non-positive amount is paid silently.
unfoldable pub payout : ℕ → ℤ → Ref → Action Bank (Unit {0})
payout user amount ref =
    if leb_ℤ amount (pos 0) then pure tt else (credit user amount game_payout (some ref) >> pure tt)

unfoldable pub refund : ℕ → ℤ → Ref → Action Bank (Unit {0})
refund user amount ref =
    if leb_ℤ amount (pos 0) then pure tt else (credit user amount game_refund (some ref) >> pure tt)

-- Best effort: a refund that fails is logged and passed over.
unfoldable pub refund_many : List ℕ → ℤ → Ref → Action Bank (Unit {0})
refund_many [] amount ref = pure tt
refund_many (u ∷ us) amount ref = do ignore (refund u amount ref); refund_many us amount ref
