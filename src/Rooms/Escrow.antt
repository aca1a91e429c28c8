-- ===== src/Rooms/Escrow.antt =====
-- Coins are conserved: what the users have and what the open rooms hold stays the same sum.
use backend_htssclub.Base.{
  ℕ, ◌≡◌, refl, sym, ◌∙◌, ap, inl, inr, true, false, Bool, Option-cases, none, some, List, arith,
  if◌then◌else◌,
}
use backend_htssclub.Base.Int.{ℤ, ◌+ℤ◌, int_laws}
use backend_htssclub.Common.Action.{Action, Exception, ok, err, ◌>>=◌}
use backend_htssclub.Common.Action.After.{After}
use backend_htssclub.Wallet.{User, Bank}
use backend_htssclub.Wallet.Users.{HasUniqueIds, total}
use backend_htssclub.Wager.Effects.{is_known, Shifted}
use backend_htssclub.Rooms.{
  Member, Room, Lobby, at_bank, find_room, update_room, find_and_update, has_room_id, is_waiting,
  is_wager, has_member, get_or_throw, add_member,
}
use backend_htssclub.Rooms.Held.{
  holds, held, IsBacked, AllBacked, AllBacked-keeps, find_room-holds, update_room-none, held-update,
  update_room-AllBacked,
}
use backend_htssclub.Rooms.Members.{owed-snoc, AllKnown-snoc, OnceEach-snoc, staked-snoc_nil}

-- The coins of the users and of the open rooms together, with every pot backed by its stakes.
pub record IsSolvent (worth : ℤ) (s : Lobby) : Type 0 where
  pub unique : HasUniqueIds s.bank.users
  pub backed : AllBacked s.bank.users s.rooms
  pub sum : total s.bank.users +ℤ held s.rooms ≡ worth

module _ (p : Room → Bool) (f : Room → Room) (s : Lobby) where
  pub find_and_update-some :
      (r : Room)
      → find_room p s.rooms ≡ some r
      → find_and_update p f s ≡ (ok (some (f r)), record s { rooms = update_room p f s.rooms })
  unfolding find_and_update
  find_and_update-some r e = rw e refl

  pub find_and_update-none : find_room p s.rooms ≡ none → find_and_update p f s ≡ (ok none, s)
  unfolding find_and_update
  find_and_update-none e = rw (e, update_room-none p f s.rooms e) refl

  -- An update of one room and of what is owed to it.
  pub update-IsSolvent :
      (w gain : ℤ) (r : Room)
      → find_room p s.rooms ≡ some r
      → HasUniqueIds s.bank.users
      → AllBacked s.bank.users s.rooms
      → (IsBacked s.bank.users r → IsBacked s.bank.users (f r))
      → holds (f r) ≡ holds r +ℤ gain
      → total s.bank.users +ℤ held s.rooms +ℤ gain ≡ w
      → IsSolvent w (record s { rooms = update_room p f s.rooms })
  update-IsSolvent w gain r e unique backed keeps grows sum = record {
    unique = unique;
    backed =
        update_room-AllBacked p f s.bank.users s.rooms
          (λ q found b.
            let same : some q ≡ some r = sym found ∙ e in
            let k : q ≡ r = cc in rw k (keeps (rw (← k) b)))
          backed;
    sum = rw (held-update p f s.rooms r e, grows) (rw (← sum) (omega int_laws));
  }

module _ {A : Type 0} (m : Action Bank A) (s : Lobby) where
  pub at_bank_ok :
      {a : A} {b : Bank} → m s.bank ≡ (ok a, b) → at_bank m s ≡ (ok a, record s { bank = b })
  unfolding at_bank
  at_bank_ok h = rw h refl

  pub at_bank_err :
      {e : Exception} {b : Bank}
      → m s.bank ≡ (err e, b)
      → at_bank m s ≡ (err e, record s { bank = b })
  unfolding at_bank
  at_bank_err h = rw h refl

pub add_member-IsBacked :
    (us : List User) (r : Room) (u : ℕ) (staked : Bool)
    → has_member u r.members ≡ false
    → (staked ≡ true → is_known u us ≡ true)
    → (is_wager r.mode ≡ false → staked ≡ false)
    → IsBacked us r
    → IsBacked us (
        add_member
          (record { user_id = u; staked = staked; ready = false })
          (if staked then r.bet_amount else 0)
          r)
add_member-IsBacked us r u staked absent known free b =
    let m : Member = record { user_id = u; staked = staked; ready = false } in
    record {
      pot_is = rw (b.pot_is, owed-snoc r.bet_amount r.members m) (omega int_laws);
      known = AllKnown-snoc us r.members m b.known known;
      once = OnceEach-snoc r.members m b.once absent;
      free = λ h. staked-snoc_nil r.members m (b.free h) (free h);
      priced = b.priced;
    }

pub holds-open : (r : Room) → is_waiting r.status ≡ true → holds r ≡ r.pot
unfolding holds
holds-open r h = ground arith

-- A change of the bank alone.
pub shift-IsSolvent :
    (w a : ℤ) (s : Lobby) (b : Bank)
    → IsSolvent w s
    → Shifted a s.bank.users b.users
    → IsSolvent (w +ℤ a) (record s { bank = b })
shift-IsSolvent w a s b k h = record {
  unique = h.unique;
  backed = AllBacked-keeps s.bank.users b.users s.rooms h.keeps k.backed;
  sum = rw h.moved (rw (← k.sum) (omega int_laws));
}

-- The room that a handler read.
pub record IsRead (i : ℕ) (s : Lobby) (r : Room) : Type 0 where
  pub found : find_room (has_room_id i) s.rooms ≡ some r
  pub itself : find_room (has_room_id r.id) s.rooms ≡ some r

IsRead-room :
    (i : ℕ) (s : Lobby) (r : Room) → find_room (has_room_id i) s.rooms ≡ some r → IsRead i s r
IsRead-room i s r e =
    let same : r.id ≡ i = let h = find_room-holds (has_room_id i) s.rooms r e in ground arith in
    record { found = e; itself = ap (λ j. find_room (has_room_id j) s.rooms) same ∙ e }

-- A handler that starts by reading a room.
pub After-read :
    {A : Type 0} (P : Lobby → Type 0) (i : ℕ) (f : Room → Action Lobby A) (s : Lobby)
    → P s
    → ((r : Room) → IsRead i s r → After P (f r) s)
    → After P (get_or_throw i >>= f) s
unfolding get_or_throw ◌>>=◌
After-read P i f s p h = elim (Option-cases (find_room (has_room_id i) s.rooms)) [
  | inl missing ↦ rw missing p
  | inr (r, e) ↦ rw e (h r (IsRead-room i s r e))
]
