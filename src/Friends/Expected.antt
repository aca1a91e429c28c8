-- ===== src/Friends/Expected.antt =====
-- What two users are to each other, as src/friends/friends.service.ts promises it: an abstract
-- relation that every request changes, read through `getStatus`.
use backend_htssclub.Base.{
  ℕ, suc, ◌<◌, ◌≡◌, refl, inl, inr, Bool, true, false, not, ◌&&◌, ◌||◌, Bool-cases, Option, none,
  some, List, [], ◌∷◌, ◌++◌, ◌==◌, if◌then◌else◌, arith, contains,
}
use backend_htssclub.Common.Enums.{FriendState}
use backend_htssclub.Friends.{
  Friend, Book, joins, find_between, find_request, delete_doc, put_doc, new_doc, FriendStatus,
  status_none, status_friends, status_sent, status_received, status_blocked, status_blocked_by,
  Answer, answer_of, get_status, Request, send, removes, blocks, unblocks, accepts, declines,
}
use backend_htssclub.Friends.Docs.{
  AreProper, AreBelow, find_between_comm, find_between-delete, find_between-put, find_between-snoc,
}
use backend_htssclub.Friends.Kept.{
  AreProper-delete, AreBelow-delete, AreProper-put, AreBelow-put, AreProper-snoc, AreBelow-snoc,
}

abbrev pub IsProper : Book → Type 0
IsProper b = AreProper b.docs × AreBelow b.next_id b.docs

-- The relation knows no documents: what a request makes of the answer that one user gets.
abbrev pub unrelated : Answer
unrelated = record { status = status_none; request_id = none }

abbrev pub after_send : FriendStatus → Bool → ℕ → Answer → Answer
after_send status_none true next old = record { status = status_sent; request_id = some next }
after_send status_none false next old = record { status = status_received; request_id = some next }
after_send status_received _ next old = record old { status = status_friends }
after_send _ _ next old = old

abbrev pub id_or : ℕ → Option ℕ → ℕ
id_or next none = next
id_or next (some i) = i

abbrev pub after_block : Bool → ℕ → Answer → Answer
after_block by_me next old = record {
  status = if by_me then status_blocked else status_blocked_by;
  request_id = some (id_or next old.request_id);
}

abbrev pub is_friends : FriendStatus → Bool
is_friends status_friends = true
is_friends _ = false

abbrev pub is_own_block : FriendStatus → Bool
is_own_block status_blocked = true
is_own_block _ = false

abbrev pub has_request : ℕ → Option ℕ → Bool
has_request i none = false
has_request i (some j) = j == i

-- The pending request with this id, seen by `x` about `y`, is addressed to `me`.
abbrev pub awaits : ℕ → ℕ → ℕ → ℕ → Answer → Bool
awaits me request x y a = has_request request a.request_id && is_for a.status
  where
    is_for : FriendStatus → Bool
    is_for status_received = x == me
    is_for status_sent = y == me
    is_for _ = false

abbrev pub concerns : ℕ → ℕ → ℕ → ℕ → Bool
concerns me target x y = (x == me && y == target) || (x == target && y == me)

abbrev pub expected : Request → List ℕ → ℕ → (ℕ → ℕ → Answer) → ℕ → ℕ → Answer
expected (send me target) users next view x y =
    if (concerns me target x y && not (me == target)) && contains target users
    then after_send (view me target).status (x == me) next (view x y)
    else view x y
expected (removes me target) users next view x y =
    if concerns me target x y && is_friends (view me target).status then unrelated else view x y
expected (blocks me target) users next view x y =
    if (concerns me target x y && not (me == target)) && contains target users
    then after_block (x == me) next (view x y)
    else view x y
expected (unblocks me target) users next view x y =
    if concerns me target x y && is_own_block (view me target).status then unrelated else view x y
expected (accepts me request) users next view x y =
    if awaits me request x y (view x y)
    then record (view x y) { status = status_friends }
    else view x y
expected (declines me request) users next view x y =
    if awaits me request x y (view x y) then unrelated else view x y

abbrev pub view_of : Book → ℕ → ℕ → Answer
view_of b x y = get_status x y b

module _ (b : Book) (proper : IsProper b) (r : Request) where
  -- The book after the request.
  abbrev pub Meets : Book → Type 0
  Meets b' =
      AreProper b'.docs
      × AreBelow b'.next_id b'.docs
      × ((x y : ℕ) → get_status x y b' ≡ expected r b.users b.next_id (view_of b) x y)

  -- Nothing happened, and nothing was to happen.
  pub Meets-same :
      ((x y : ℕ) → expected r b.users b.next_id (view_of b) x y ≡ get_status x y b) → Meets b
  Meets-same h = (proper.0, proper.1, λ x y. rw (h x y))

  pub Meets-delete :
      (i : ℕ) (d : Friend)
      → find_request i b.docs ≡ some d
      → ((x y : ℕ)
          → (x == y) ≡ false
          → expected r b.users b.next_id (view_of b) x y
            ≡ (if joins x y d then unrelated else get_status x y b))
      → ((x y : ℕ)
          → (x == y) ≡ true
          → expected r b.users b.next_id (view_of b) x y ≡ get_status x y b)
      → Meets (record b { docs = delete_doc i b.docs })
  unfolding get_status
  Meets-delete i d found h same = (
    AreProper-delete i b.docs proper.0,
    AreBelow-delete b.next_id i b.docs proper.1,
    λ x y. elim (Bool-cases (x == y)) [
      | inl self ↦ rw (same x y self, self)
      | inr other ↦
          rw (h x y other, other, find_between-delete x y i b.docs d proper.0 found)
            (elim (Bool-cases (joins x y d)) [ inl j ↦ rw j | inr j ↦ rw j ])
    ],
  )

  pub Meets-put :
      (e d : Friend)
      → find_request e.id b.docs ≡ some d
      → joins e.requester_id e.addressee_id d ≡ true
      → (e.requester_id == e.addressee_id) ≡ false
      → e.id < b.next_id
      → ((x y : ℕ)
          → (x == y) ≡ false
          → expected r b.users b.next_id (view_of b) x y
            ≡ (if joins x y e then answer_of x (some e) else get_status x y b))
      → ((x y : ℕ)
          → (x == y) ≡ true
          → expected r b.users b.next_id (view_of b) x y ≡ get_status x y b)
      → Meets (record b { docs = put_doc e b.docs })
  unfolding get_status
  Meets-put e d found j apart below h same = (
    AreProper-put e b.docs d proper.0 found j apart,
    AreBelow-put b.next_id e b.docs below proper.1,
    λ x y. elim (Bool-cases (x == y)) [
      | inl self ↦ rw (same x y self, self)
      | inr other ↦
          rw (h x y other, other, find_between-put x y e b.docs d proper.0 found j)
            (elim (Bool-cases (joins x y e)) [ inl k ↦ rw k | inr k ↦ rw k ])
    ],
  )

  pub Meets-snoc :
      (me target : ℕ) (state : FriendState)
      → find_between me target b.docs ≡ none
      → (me == target) ≡ false
      → ((x y : ℕ)
          → (x == y) ≡ false
          → expected r b.users b.next_id (view_of b) x y ≡ (
              if joins x y (new_doc b.next_id me target state)
              then answer_of x (some (new_doc b.next_id me target state))
              else get_status x y b))
      → ((x y : ℕ)
          → (x == y) ≡ true
          → expected r b.users b.next_id (view_of b) x y ≡ get_status x y b)
      → Meets (record b {
        docs = b.docs ++ new_doc b.next_id me target state ∷ [];
        next_id = suc b.next_id;
      })
  unfolding get_status
  Meets-snoc me target state absent apart h same =
      let d = new_doc b.next_id me target state in
      (
        AreProper-snoc b.next_id b.docs d proper.0 proper.1 refl absent apart,
        AreBelow-snoc b.next_id b.docs d proper.1 refl,
        λ x y. elim (Bool-cases (x == y)) [
          | inl self ↦ rw (same x y self, self)
          | inr other ↦
              rw (h x y other, other, find_between-snoc x y b.docs d absent)
                (elim (Bool-cases (joins x y d)) [ inl k ↦ rw k | inr k ↦ rw k ])
        ],
      )

pub concerns_between :
    (me target x y : ℕ) (ds : List Friend)
    → concerns me target x y ≡ true
    → find_between x y ds ≡ find_between me target ds
concerns_between me target x y ds h = elim (Bool-cases (x == me && y == target)) [
  | inl same ↦ let e : x ≡ me = ground arith in let f : y ≡ target = ground arith in rw (e, f)
  | inr other ↦
      let e : x ≡ target = ground arith in
      let f : y ≡ me = ground arith in rw (e, f, find_between_comm target me ds)
]

pub concerns-joins :
    (me target x y : ℕ) (d : Friend)
    → joins me target d ≡ true
    → joins x y d ≡ concerns me target x y
concerns-joins me target x y d j = ground arith

pub view_between :
    (me target x y : ℕ) (b : Book)
    → concerns me target x y ≡ true
    → (x == y) ≡ false
    → get_status x y b ≡ answer_of x (find_between me target b.docs)
unfolding get_status
view_between me target x y b c n = rw (n, concerns_between me target x y b.docs c)
