-- ===== src/Rooms/Leaving.antt =====
-- `leave` and `cancel` conserve coins.
use backend_htssclub.Base.{
  ℕ, ◌≡◌, refl, ◌∙◌, inl, inr, true, false, not, ◌&&◌, Bool, Bool-cases, some, List, arith,
  if◌then◌else◌, ◌==◌, ltb,
}
use backend_htssclub.Base.Int.{ℤ, pos, ◌+ℤ◌, ◌-ℤ◌, int_laws}
use backend_htssclub.Common.Action.{Action, ◌>>=◌, pure, throw_if, bad_request, game_started}
use backend_htssclub.Common.Action.After.{After, After-pure, After-guard, After-ok, After-then}
use backend_htssclub.Wallet.{User, room_code}
use backend_htssclub.Wager.{refund, refund_many}
use backend_htssclub.Wager.Effects.{is_known, refund_pays, owed, refund_many_pays}
use backend_htssclub.Rooms.{
  Room, Lobby, Left, at_bank, update_room, find_and_update, has_room_id, is_waiting, is_closed,
  is_wager, has_member, staked_users, is_staked, close_room, cancel, remove_member, unseat_member,
  leave_room, leave,
}
use backend_htssclub.Rooms.Held.{holds, IsBacked, find_room-IsBacked}
use backend_htssclub.Rooms.Members.{
  owed-pull, AllKnown-pull, is_staked-known, OnceEach-pull, staked-pull_nil,
}
use backend_htssclub.Rooms.Escrow.{
  IsSolvent, find_and_update-some, update-IsSolvent, at_bank_ok, holds-open, IsRead, After-read,
  shift-IsSolvent,
}

-- The same amount taken from a pot and given to the users.
regain : (w a : ℤ) (s : Lobby) → IsSolvent (w -ℤ a +ℤ a) s → IsSolvent w s
regain w a s k = record { unique = k.unique; backed = k.backed; sum = k.sum ∙ omega int_laws }

remove_member-IsBacked :
    (us : List User) (u : ℕ) (r : Room)
    → IsBacked us r
    → IsBacked us (remove_member u (if is_staked u r.members then r.bet_amount else 0) r)
remove_member-IsBacked us u r b = record {
  pot_is = rw (b.pot_is, ← owed-pull r.bet_amount u r.members b.once) (omega int_laws);
  known = AllKnown-pull us u r.members b.known;
  once = OnceEach-pull u r.members b.once;
  free = λ h. staked-pull_nil u r.members (b.free h);
  priced = b.priced;
}

module _ (w : ℤ) (i u : ℕ) (r : Room) where
  -- The refund that ends `leave`, after the stake has left the pot.
  refund-IsSolvent :
      (s : Lobby) (amount : ℕ) (left : Left)
      → IsSolvent (w -ℤ pos amount) s
      → (ltb 0 amount ≡ true → is_known u s.bank.users ≡ true)
      → After
          (IsSolvent w)
          ((if ltb 0 amount then at_bank (refund u (pos amount) (room_code r.code)) else pure tt)
            >>= λ _. pure left)
          s
  unfolding ◌>>=◌
  refund-IsSolvent s amount left k known = elim (Bool-cases (ltb 0 amount)) [
    | inl owes ↦
        let (b, paid, shifted) =
          refund_pays u (pos amount) (room_code r.code) s.bank k.unique (known owes)
            (ground arith) in
        rw (owes, at_bank_ok (refund u (pos amount) (room_code r.code)) s paid)
          (regain w (pos amount) (record s { bank = b })
            (shift-IsSolvent (w -ℤ pos amount) (pos amount) s b k shifted))
    | inr free ↦
        let zero_amount : amount ≡ 0 = ground arith in
        rw free (record {
          unique = k.unique;
          backed = k.backed;
          sum = (rw zero_amount at k.sum) ∙ omega int_laws;
        })
  ]

  module _ (s : Lobby) (read : IsRead i s r) (k : IsSolvent w s) where
    IsBacked-room : IsBacked s.bank.users r
    IsBacked-room = find_room-IsBacked (has_room_id i) s.bank.users s.rooms r read.found k.backed

    unseat-IsSolvent :
        is_waiting r.status ≡ true
        → After
            (IsSolvent w)
            (unseat_member r u (if is_staked u r.members then r.bet_amount else 0))
            s
    unfolding unseat_member
    unseat-IsSolvent waits =
        let amount = if is_staked u r.members then r.bet_amount else 0 in
        let p = has_room_id r.id in
        let f = remove_member u amount in
        After-ok (IsSolvent w) (find_and_update p f) _ s (find_and_update-some p f s r read.itself)
          (refund-IsSolvent (record s { rooms = update_room p f s.rooms }) amount
            (record { room = some (f r); cancelled = false })
            (update-IsSolvent p f s (w -ℤ pos amount) (pos 0 -ℤ pos amount) r read.itself k.unique
              k.backed (remove_member-IsBacked s.bank.users u r)
              (rw (holds-open r waits, holds-open (f r) waits) (omega int_laws))
              (rw (← k.sum) (omega int_laws)))
            (λ owes.
              is_staked-known s.bank.users u r.members IsBacked-room.known (ground (arith, owes))))

    close-IsBacked : IsBacked s.bank.users r → IsBacked s.bank.users (close_room r)
    close-IsBacked b = record {
      pot_is = b.pot_is;
      known = b.known;
      once = b.once;
      free = b.free;
      priced = b.priced;
    }

    -- The room closed, and not yet refunded.
    closed-IsSolvent :
        is_waiting r.status ≡ true
        → IsSolvent
            (w -ℤ pos (owed r.bet_amount (staked_users r.members)))
            (record s { rooms = update_room (has_room_id r.id) close_room s.rooms })
    unfolding holds
    closed-IsSolvent waits =
        let stakes = pos (owed r.bet_amount (staked_users r.members)) in
        update-IsSolvent (has_room_id r.id) close_room s (w -ℤ stakes) (pos 0 -ℤ stakes) r
          read.itself k.unique k.backed close-IsBacked
          (rw (holds-open r waits, IsBacked-room.pot_is) (omega int_laws))
          (rw (← k.sum) (omega int_laws))

    refunded-IsSolvent :
        (bets : Bool)
        → is_wager r.mode ≡ bets
        → is_waiting r.status ≡ true
        → After
            (IsSolvent w)
            (if bets
              then at_bank
                  (refund_many (staked_users r.members) (pos r.bet_amount) (room_code r.code))
              else pure tt)
            (record s { rooms = update_room (has_room_id r.id) close_room s.rooms })
    unfolding ◌>>=◌
    refunded-IsSolvent true mode waits =
        let stakes = pos (owed r.bet_amount (staked_users r.members)) in
        let s' = record s { rooms = update_room (has_room_id r.id) close_room s.rooms } in
        let k' = closed-IsSolvent waits in
        let m = refund_many (staked_users r.members) (pos r.bet_amount) (room_code r.code) in
        let (b, paid, shifted) =
          refund_many_pays (staked_users r.members) r.bet_amount (room_code r.code) s.bank k.unique
            IsBacked-room.known (ground (arith, IsBacked-room.priced mode)) in
        rw (at_bank_ok m s' paid) (
          regain w stakes (record s' { bank = b })
            (shift-IsSolvent (w -ℤ stakes) stakes s' b k' shifted))
    refunded-IsSolvent false mode waits =
        let k' = closed-IsSolvent waits in
        let nothing : owed r.bet_amount (staked_users r.members) ≡ 0 =
          rw (IsBacked-room.free mode) refl in
        record {
          unique = k'.unique;
          backed = k'.backed;
          sum = (rw nothing at k'.sum) ∙ omega int_laws;
        }

    refunds : Action Lobby (Unit {0})
    refunds =
        if is_wager r.mode
        then at_bank (refund_many (staked_users r.members) (pos r.bet_amount) (room_code r.code))
        else pure tt

    cancel-IsSolvent : is_waiting r.status ≡ true → After (IsSolvent w) (cancel r) s
    unfolding cancel refunds
    cancel-IsSolvent waits =
        let still_open : is_closed r.status ≡ false = ground arith in
        rw still_open (
          After-ok (IsSolvent w) (find_and_update (has_room_id r.id) close_room) (λ _. refunds) s
            (find_and_update-some (has_room_id r.id) close_room s r read.itself)
            (refunded-IsSolvent (is_wager r.mode) refl waits))

    -- A guest leaves a waiting room, or is refused.
    guest-IsSolvent :
        (amount : ℕ)
        → amount ≡ (if is_staked u r.members then r.bet_amount else 0)
        → After
            (IsSolvent w)
            (throw_if (not (is_waiting r.status)) (bad_request game_started) >>= λ _.
              unseat_member r u amount)
            s
    guest-IsSolvent amount e =
        After-guard (IsSolvent w) (not (is_waiting r.status)) (bad_request game_started)
          (λ _. unseat_member r u amount) s k
          (λ waits. rw e (unseat-IsSolvent (ground (arith, waits))))

    pub leave_room-IsSolvent : After (IsSolvent w) (leave_room r u) s
    unfolding leave_room
    leave_room-IsSolvent = elim (Bool-cases (has_member u r.members)) [
      | inr absent ↦ rw absent (After-pure (IsSolvent w) _ s k)
      | inl seated ↦ elim (Bool-cases (is_waiting r.status && r.host_id == u)) [
        | inl hosts ↦
            rw (seated, hosts)
              (After-then (IsSolvent w) (cancel r) _ s (cancel-IsSolvent (ground arith))
                (λ x t p. After-pure (IsSolvent w) _ t p))
        | inr guest ↦ rw (seated, guest) (guest-IsSolvent _ refl)
      ]
    ]

pub leave-IsSolvent :
    (w : ℤ) (i u : ℕ) (s : Lobby) → IsSolvent w s → After (IsSolvent w) (leave i u) s
unfolding leave
leave-IsSolvent w i u s k =
    After-read (IsSolvent w) i (λ r. leave_room r u) s k
      λ r read. leave_room-IsSolvent w i u r s read k
