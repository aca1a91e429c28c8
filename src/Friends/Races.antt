-- ===== src/Friends/Races.antt =====
-- `sendRequest` of src/friends/friends.service.ts by two users at the same time.
use backend_htssclub.Base.{
  ℕ, suc, ◌+◌, ◌≡◌, refl, false, ◌&&◌, none, List, [], ◌∷◌, ◌++◌, ◌==◌, if◌then◌else◌, arith,
}
use backend_htssclub.Common.Enums.{pending}
use backend_htssclub.Common.Action.{◌>>=◌}
use backend_htssclub.Friends.{
  Friend, Book, joins, find_between, is_taken, new_doc, insert_doc, emit_friend_event,
  request_received, friend_request_notice, create_request,
}
use backend_htssclub.Friends.Kept.{untaken}

abbrev pub count_between : ℕ → ℕ → List Friend → ℕ
count_between a c [] = 0
count_between a c (d ∷ ds) = (if joins a c d then 1 else 0) + count_between a c ds

count-snoc :
    (a c : ℕ) (ds : List Friend) (d : Friend)
    → count_between a c (ds ++ d ∷ []) ≡ count_between a c ds + (if joins a c d then 1 else 0)
count-snoc a c [] d = omega arith
count-snoc a c (x ∷ ds) d = omega (arith, count-snoc a c ds d)

count_absent : (a c : ℕ) (ds : List Friend) → find_between a c ds ≡ none → count_between a c ds ≡ 0
unfolding find_between
count_absent a c [] e = refl
count_absent a c (d ∷ ds) e = ground (arith, count_absent a c ds)

taken-snoc :
    (i a c : ℕ) (ds : List Friend) (d : Friend)
    → (d.requester_id == a && d.addressee_id == c) ≡ false
    → is_taken i a c (ds ++ d ∷ []) ≡ is_taken i a c ds
unfolding is_taken
taken-snoc i a c [] d n = ground (arith, n)
taken-snoc i a c (x ∷ ds) d n = ground (arith, n, taken-snoc i a c ds d)

absent_turned :
    (a c : ℕ) (ds : List Friend) → find_between a c ds ≡ none → find_between c a ds ≡ none
unfolding find_between
absent_turned a c [] e = refl
absent_turned a c (d ∷ ds) e = ground (arith, absent_turned a c ds)

abbrev created : ℕ → ℕ → Book → Book
created me target b = record b {
  docs = b.docs ++ new_doc b.next_id me target pending ∷ [];
  next_id = suc b.next_id;
  events = request_received target me b.next_id ∷ friend_request_notice target me ∷ b.events;
}

create_run :
    (me target : ℕ) (b : Book)
    → is_taken b.next_id me target b.docs ≡ false
    → (create_request me target b).1 ≡ created me target b
unfolding create_request insert_doc emit_friend_event ◌>>=◌
create_run me target b free = rw free

-- Two users who had no document, and who send each other a request at the same time, so that both
-- look before either writes, are left with two documents, which the unique index lets pass.
pub raced_requests_both_stay :
    (b : Book) (a c : ℕ)
    → (a == c) ≡ false
    → find_between a c b.docs ≡ none
    → count_between a c (create_request c a (create_request a c b).1).1.docs ≡ 2
raced_requests_both_stay b a c n absent =
    let d = new_doc b.next_id a c pending in
    let first = create_run a c b (untaken b.next_id a c b.docs absent) in
    let free : is_taken (suc b.next_id) c a (b.docs ++ d ∷ []) ≡ false =
      rw (taken-snoc (suc b.next_id) c a b.docs d (ground (arith, n)))
        (untaken (suc b.next_id) c a b.docs (absent_turned a c b.docs absent)) in
    rw (first, create_run c a (created a c b) free)
      (rw
        (
          count-snoc a c (b.docs ++ d ∷ []) (new_doc (suc b.next_id) c a pending),
          count-snoc a c b.docs d,
          count_absent a c b.docs absent,
        )
        (ground arith))
