-- ===== src/Rooms/Joining.antt =====
-- `join` conserves coins.
use backend_htssclub.Base.{ℕ, ◌≡◌, refl, inl, inr, true, false, Bool, arith, if◌then◌else◌}
use backend_htssclub.Base.Int.{ℤ, pos, ◌+ℤ◌, int_laws}
use backend_htssclub.Common.Action.{◌>>=◌, pure}
use backend_htssclub.Common.Action.After.{
  After, After-pure, After-guard, After-if, After-ok, After-err,
}
use backend_htssclub.Wallet.{room_code}
use backend_htssclub.Wallet.Users.{HasUniqueIds, total}
use backend_htssclub.Wager.{collect_stake}
use backend_htssclub.Wager.Effects.{is_known, collect_stake_cases}
use backend_htssclub.Rooms.{
  Member, Room, Lobby, at_bank, find_and_update, is_waiting_room, is_waiting, is_wager, has_member,
  seat_member, join_room, join, add_member,
}
use backend_htssclub.Rooms.Held.{held, AllBacked, AllBacked-keeps, find_waiting}
use backend_htssclub.Rooms.Escrow.{
  IsSolvent, find_and_update-some, update-IsSolvent, at_bank_ok, at_bank_err, add_member-IsBacked,
  holds-open, IsRead, After-read,
}

module _ (w : ℤ) (i u : ℕ) (r : Room) where
  abbrev member : Bool → Member
  member staked = record { user_id = u; staked = staked; ready = false }

  -- The write of `join`, after a stake that left the bank short of it.
  seat_member-IsSolvent :
      (s : Lobby) (staked : Bool)
      → IsRead i s r
      → is_waiting r.status ≡ true
      → HasUniqueIds s.bank.users
      → AllBacked s.bank.users s.rooms
      → has_member u r.members ≡ false
      → (staked ≡ true → is_known u s.bank.users ≡ true)
      → (is_wager r.mode ≡ false → staked ≡ false)
      → total s.bank.users +ℤ held s.rooms +ℤ pos (if staked then r.bet_amount else 0) ≡ w
      → After (IsSolvent w) (seat_member r u staked) s
  unfolding seat_member ◌>>=◌
  seat_member-IsSolvent s staked read waits unique backed absent known free sum =
      let there = find_waiting i s.rooms r read.found waits in
      let amount = if staked then r.bet_amount else 0 in
      let f = add_member (member staked) amount in
      let p = is_waiting_room r.id in
      After-ok (IsSolvent w) (find_and_update p f) _ s (find_and_update-some p f s r there) (
        update-IsSolvent p f s w (pos amount) r there unique backed
          (add_member-IsBacked s.bank.users r u staked absent known free)
          (rw (holds-open r waits, holds-open (f r) waits) refl) sum)

  module _ (s : Lobby) (read : IsRead i s r) (ok_s : IsSolvent w s) where
    stake-IsSolvent :
        is_waiting r.status ≡ true
        → has_member u r.members ≡ false
        → is_wager r.mode ≡ true
        → After
            (IsSolvent w)
            (at_bank (collect_stake u (pos r.bet_amount) (room_code r.code)) >>= λ _.
              seat_member r u true)
            s
    stake-IsSolvent waits absent bets =
        let stake = collect_stake u (pos r.bet_amount) (room_code r.code) in
        elim (collect_stake_cases u (pos r.bet_amount) (room_code r.code) s.bank ok_s.unique) [
          | inl (e, refused) ↦
              After-err (IsSolvent w) (at_bank stake) _ s (at_bank_err stake s refused) ok_s
          | inr (b, taken, shifted, known) ↦
              After-ok (IsSolvent w) (at_bank stake) (λ _. seat_member r u true) s
                (at_bank_ok stake s taken)
                (seat_member-IsSolvent (record s { bank = b }) true
                  (record { found = read.found; itself = read.itself }) waits shifted.unique
                  (AllBacked-keeps s.bank.users b.users s.rooms shifted.keeps ok_s.backed) absent
                  (λ _. known) (λ h. absurd (ground arith))
                  (rw shifted.moved (rw (← ok_s.sum) (omega int_laws))))
        ]

    seated-IsSolvent :
        (bets : Bool)
        → is_wager r.mode ≡ bets
        → is_waiting r.status ≡ true
        → has_member u r.members ≡ false
        → After
            (IsSolvent w)
            ((if bets
                then at_bank (collect_stake u (pos r.bet_amount) (room_code r.code))
                else pure tt)
              >>= λ _. seat_member r u bets)
            s
    unfolding ◌>>=◌
    seated-IsSolvent true mode waits absent = stake-IsSolvent waits absent mode
    seated-IsSolvent false mode waits absent =
        seat_member-IsSolvent s false read waits ok_s.unique ok_s.backed absent
          (λ h. absurd (ground arith)) (λ _. refl) (rw (← ok_s.sum) (omega int_laws))

    pub join_room-IsSolvent : After (IsSolvent w) (join_room r u) s
    unfolding join_room
    join_room-IsSolvent = After-guard (IsSolvent w) _ _ _ s ok_s λ waits.
        After-if (IsSolvent w) _ _ _ s (λ _. After-pure (IsSolvent w) r s ok_s)
          λ absent.
            After-guard (IsSolvent w) _ _ _ s ok_s
              λ space. seated-IsSolvent (is_wager r.mode) refl (ground arith) absent

pub join-IsSolvent :
    (w : ℤ) (i u : ℕ) (s : Lobby) → IsSolvent w s → After (IsSolvent w) (join i u) s
unfolding join
join-IsSolvent w i u s k =
    After-read (IsSolvent w) i (λ r. join_room r u) s k
      λ r read. join_room-IsSolvent w i u r s read k
