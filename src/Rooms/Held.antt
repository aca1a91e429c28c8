-- ===== src/Rooms/Held.antt =====
-- The coins that the open rooms hold, and the updates of one room.
use backend_htssclub.Base.{
  ℕ, ◌≡◌, refl, inl, inr, true, false, Bool, Bool-cases, none, some, List, [], ◌∷◌, arith,
  if◌then◌else◌, ◌==◌, ltb,
}
use backend_htssclub.Base.Int.{ℤ, pos, ◌+ℤ◌, ◌-ℤ◌, int_laws}
use backend_htssclub.Wallet.{User}
use backend_htssclub.Wager.Effects.{is_known, AllKnown, AllKnown-keeps, owed}
use backend_htssclub.Rooms.{
  Member, Room, find_room, update_room, has_room_id, is_waiting_room, is_waiting, is_closed,
  is_wager, has_member, staked_users,
}

-- What a room holds: a closed room has given its pot away.
unfoldable pub holds : Room → ℤ
holds r = if is_closed r.status then pos 0 else r.pot

unfoldable pub held : List Room → ℤ
held [] = pos 0
held (r ∷ rs) = holds r +ℤ held rs

-- Nobody is seated twice.
abbrev pub OnceEach : List Member → Type 0
OnceEach [] = Unit
OnceEach (m ∷ ms) = (has_member m.user_id ms ≡ false) × OnceEach ms

-- The pot is the stakes of the members, who are users, and only a room with a wager has stakes.
pub record IsBacked (us : List User) (r : Room) : Type 0 where
  pub pot_is : r.pot ≡ pos (owed r.bet_amount (staked_users r.members))
  pub known : AllKnown us (staked_users r.members)
  pub once : OnceEach r.members
  pub free : is_wager r.mode ≡ false → staked_users r.members ≡ []
  pub priced : is_wager r.mode ≡ true → ltb 0 r.bet_amount ≡ true

abbrev pub AllBacked : List User → List Room → Type 0
AllBacked us [] = Unit
AllBacked us (r ∷ rs) = IsBacked us r × AllBacked us rs

pub AllBacked-keeps :
    (us us' : List User) (rs : List Room)
    → ((j : ℕ) → is_known j us ≡ true → is_known j us' ≡ true)
    → AllBacked us rs
    → AllBacked us' rs
AllBacked-keeps us us' [] h a = tt
AllBacked-keeps us us' (r ∷ rs) h a = (
  record {
    pot_is = a.0.pot_is;
    known = AllKnown-keeps us us' (staked_users r.members) h a.0.known;
    once = a.0.once;
    free = a.0.free;
    priced = a.0.priced;
  },
  AllBacked-keeps us us' rs h a.1,
)

module _ (p : Room → Bool) where
  pub find_room-holds : (rs : List Room) (r : Room) → find_room p rs ≡ some r → p r ≡ true
  unfolding find_room
  find_room-holds [] r e = ground arith
  find_room-holds (q ∷ rs) r e = elim (Bool-cases (p q)) [
    | inl yes_q ↦ let same : some q ≡ some r = rw yes_q at e in ground (arith, yes_q, same)
    | inr no_q ↦ find_room-holds rs r (rw no_q at e)
  ]

  pub find_room-IsBacked :
      (us : List User) (rs : List Room) (r : Room)
      → find_room p rs ≡ some r
      → AllBacked us rs
      → IsBacked us r
  unfolding find_room
  find_room-IsBacked us [] r e a = ground arith
  find_room-IsBacked us (q ∷ rs) r e a = elim (Bool-cases (p q)) [
    | inl yes_q ↦
        let found : some q ≡ some r = rw yes_q at e in let same : q ≡ r = cc in rw (← same) a.0
    | inr no_q ↦ find_room-IsBacked us rs r (rw no_q at e) a.1
  ]

  module _ (f : Room → Room) where
    pub update_room-none : (rs : List Room) → find_room p rs ≡ none → update_room p f rs ≡ rs
    unfolding find_room update_room
    update_room-none [] e = refl
    update_room-none (q ∷ rs) e = ground (arith, update_room-none rs)

    pub held-update :
        (rs : List Room) (r : Room)
        → find_room p rs ≡ some r
        → held (update_room p f rs) ≡ held rs +ℤ (holds (f r) -ℤ holds r)
    unfolding find_room update_room held
    held-update [] r e = ground arith
    held-update (q ∷ rs) r e = grind (int_laws, held-update rs r)

    pub update_room-AllBacked :
        (us : List User) (rs : List Room)
        → ((r : Room) → find_room p rs ≡ some r → IsBacked us r → IsBacked us (f r))
        → AllBacked us rs
        → AllBacked us (update_room p f rs)
    unfolding find_room update_room
    update_room-AllBacked us [] h a = tt
    update_room-AllBacked us (q ∷ rs) h a = elim (Bool-cases (p q)) [
      | inl yes_q ↦ rw yes_q (h q (rw yes_q refl) a.0, a.1)
      | inr no_q ↦ rw no_q (a.0, update_room-AllBacked us rs (λ r e. h r (rw no_q e)) a.1)
    ]

-- A room found by its identifier and waiting is also found by the guarded filter.
pub find_waiting :
    (i : ℕ) (rs : List Room) (r : Room)
    → find_room (has_room_id i) rs ≡ some r
    → is_waiting r.status ≡ true
    → find_room (is_waiting_room r.id) rs ≡ some r
unfolding find_room
find_waiting i [] r e w = ground arith
find_waiting i (q ∷ rs) r e w =
    let same_id : (r.id == i) ≡ true = find_room-holds (has_room_id i) (q ∷ rs) r e in
    elim (Bool-cases (q.id == i)) [
      | inl yes_q ↦
          let found : some q ≡ some r = rw yes_q at e in
          let same : q ≡ r = cc in
          let itself : (is_waiting_room r.id r) ≡ true = ground arith in rw same (rw itself refl)
      | inr no_q ↦
          let other : (q.id == r.id) ≡ false = ground arith in
          rw other (find_waiting i rs r (rw no_q at e) w)
    ]
