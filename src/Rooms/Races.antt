-- ===== src/Rooms/Races.antt =====
-- Two handlers that read the same room before either has written.
use backend_htssclub.Base.{ℕ, ◌≡◌, refl, true, false, arith, ◌==◌, ltb, ◌∙◌}
use backend_htssclub.Base.Int.{pos, ◌+ℤ◌}
use backend_htssclub.Common.Action.{◌>>=◌}
use backend_htssclub.Wallet.{room_code}
use backend_htssclub.Wallet.Users.{HasUniqueIds, total}
use backend_htssclub.Wager.Effects.{is_known, Shifted, refund_pays}
use backend_htssclub.Rooms.{
  Room, Lobby, at_bank, find_and_update, is_waiting, has_member, is_staked, unseat_member,
  leave_room,
}

module _ (r : Room) (u : ℕ) where
  -- The write of `leave` refunds whatever room it finds.
  unseat_pays :
      (s : Lobby)
      → HasUniqueIds s.bank.users
      → is_known u s.bank.users ≡ true
      → ltb 0 r.bet_amount ≡ true
      → Shifted (pos r.bet_amount) s.bank.users (unseat_member r u r.bet_amount s).1.bank.users
  unfolding unseat_member find_and_update at_bank ◌>>=◌
  unseat_pays s unique known owes =
      let (b, paid, shifted) =
        refund_pays u (pos r.bet_amount) (room_code r.code) s.bank unique known (ground arith) in
      rw (owes, paid) shifted

  module _ (waits : is_waiting r.status ≡ true) (guest : (r.host_id == u) ≡ false)
      (seated : has_member u r.members ≡ true) (staked : is_staked u r.members ≡ true) where
    leave-unseat : (s : Lobby) → leave_room r u s ≡ unseat_member r u r.bet_amount s
    unfolding leave_room ◌>>=◌
    leave-unseat s = rw (seated, waits, guest, staked) refl

    -- A guest with a stake who sends `leave` twice, so that both requests read the room before
    -- either writes, is paid the stake twice.
    pub raced_leave_pays_twice :
        (s : Lobby)
        → HasUniqueIds s.bank.users
        → is_known u s.bank.users ≡ true
        → ltb 0 r.bet_amount ≡ true
        → total (leave_room r u (leave_room r u s).1).1.bank.users
          ≡ total s.bank.users +ℤ pos r.bet_amount +ℤ pos r.bet_amount
    raced_leave_pays_twice s unique known owes =
        let first = unseat_pays s unique known owes in
        let t = (unseat_member r u r.bet_amount s).1 in
        let second = unseat_pays t first.unique (first.keeps u known) owes in
        rw (leave-unseat s) (rw (leave-unseat t) (second.moved ∙ rw first.moved refl))
