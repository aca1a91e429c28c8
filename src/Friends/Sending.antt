-- ===== src/Friends/Sending.antt =====
-- `sendRequest` of src/friends/friends.service.ts meets what is expected.
use backend_htssclub.Base.{
  ℕ, suc, ◌≡◌, ◌∙◌, inl, inr, true, false, not, ◌&&◌, Bool-cases, Option-cases, none, some, [], ◌∷◌,
  ◌++◌, ◌==◌, arith, contains,
}
use backend_htssclub.Common.Enums.{pending}
use backend_htssclub.Common.Action.{◌>>=◌}
use backend_htssclub.Common.Action.After.{After}
use backend_htssclub.Friends.{
  Friend, Book, find_between, is_pending, is_accepted, is_blocked, new_doc, insert_doc,
  emit_friend_event, accept, create_request, answer_existing, request_received,
  friend_request_notice, request_between, send_request, answer_of, get_status, send, accepts,
}
use backend_htssclub.Friends.Docs.{found_joins, found_between-request}
use backend_htssclub.Friends.Kept.{untaken}
use backend_htssclub.Friends.Expected.{
  IsProper, unrelated, concerns, expected, view_of, Meets, Meets-same, Meets-snoc, concerns-joins,
  view_between,
}
use backend_htssclub.Friends.Asking.{accept-Meets, awaits_found}

-- Sending a request.
module _ (b : Book) (me target : ℕ) where
  send_refused :
      ((not (me == target)) && contains target b.users) ≡ false → (send_request me target b).1 ≡ b
  unfolding send_request ◌>>=◌
  send_refused e = elim (Bool-cases (me == target)) [
    | inl self ↦ rw self
    | inr other ↦
        let unknown : contains target b.users ≡ false = ground (arith, e) in rw (other, unknown)
  ]

  module _ (other : (me == target) ≡ false) (known : contains target b.users ≡ true) where
    send_new :
        find_between me target b.docs ≡ none
        → (send_request me target b).1 ≡ record b {
          docs = b.docs ++ new_doc b.next_id me target pending ∷ [];
          next_id = suc b.next_id;
          events =
              request_received target me b.next_id ∷ friend_request_notice target me ∷ b.events;
        }
    unfolding send_request request_between create_request insert_doc ◌>>=◌ emit_friend_event
    send_new e = rw (other, known, e, untaken b.next_id me target b.docs e)

    module _ (d : Friend) (found : find_between me target b.docs ≡ some d) where
      send_useless :
          (d.addressee_id == me && is_pending d.state) ≡ false → (send_request me target b).1 ≡ b
      unfolding send_request request_between answer_existing ◌>>=◌
      send_useless e =
          rw (other, known, found)
            (elim (Bool-cases (is_blocked d.state)) [
              | inl shut ↦ rw shut
              | inr free ↦ elim (Bool-cases (is_accepted d.state)) [
                | inl friends ↦ rw (free, friends)
                | inr waits ↦
                    let not_mine : (d.addressee_id == me) ≡ false =
                      ground (arith, e, free, waits) in
                    rw (free, waits, not_mine)
              ]
            ])

      send_accepts :
          (d.addressee_id == me && is_pending d.state) ≡ true
          → (send_request me target b).1 ≡ (accept me d.id b).1
      unfolding send_request request_between answer_existing ◌>>=◌
      send_accepts e =
          let free : is_blocked d.state ≡ false = ground (arith, e) in
          let waits : is_accepted d.state ≡ false = ground (arith, e) in
          let mine : (d.addressee_id == me) ≡ true = ground (arith, e) in
          rw (other, known, found, free, waits, mine)

  agree :
      (proper : IsProper b) (other : (me == target) ≡ false)
      (known : contains target b.users ≡ true) (d : Friend)
      (found : find_between me target b.docs ≡ some d)
      (may : (d.addressee_id == me && is_pending d.state) ≡ true) (x y : ℕ)
      → expected (accepts me d.id) b.users b.next_id (view_of b) x y
        ≡ expected (send me target) b.users b.next_id (view_of b) x y
  unfolding get_status
  agree proper other known d found may x y = elim (Bool-cases (x == y)) [
    | inl self ↦ ground (arith, self, other)
    | inr n ↦
        let w : get_status me target b ≡ answer_of me (some d) = rw (other, found) in
        let there = found_between-request me target b.docs d proper.0 found in
        let j = found_joins me target b.docs d found in
        let k = awaits_found me d.id x y b.docs proper.0 d there n in
        ground (arith, n, w, other, known, may, j, k, concerns-joins me target x y d j)
  ]

  pub send-Meets :
      (proper : IsProper b) → After (Meets b proper (send me target)) (send_request me target) b
  unfolding get_status
  send-Meets proper = elim (Bool-cases (not (me == target) && contains target b.users)) [
    | inr refused ↦
        rw (send_refused refused)
          (Meets-same b proper (send me target) (λ x y. ground (arith, refused)))
    | inl may ↦
        let other : (me == target) ≡ false = ground (arith, may) in
        let known : contains target b.users ≡ true = ground (arith, may) in
        elim (Option-cases (find_between me target b.docs)) [
          | inl absent ↦ rw (send_new other known absent) (
              Meets-snoc b proper (send me target) me target pending absent other
                (λ x y n. elim (Bool-cases (concerns me target x y)) [
                  | inl c ↦
                      let v : get_status x y b ≡ unrelated =
                        rw (view_between me target x y b c n, absent) in
                      let w : get_status me target b ≡ unrelated = rw (other, absent) in
                      ground (arith, c, other, known, n, v, w)
                  | inr c ↦ ground (arith, c)
                ])
                (λ x y n. ground (arith, other, n)))
          | inr (d, found) ↦ elim (Bool-cases (d.addressee_id == me && is_pending d.state)) [
            | inl accepts_it ↦
                let (p, q, h) = accept-Meets b me d.id proper in
                rw (send_accepts other known d found accepts_it)
                  (p, q, λ x y. h x y ∙ agree proper other known d found accepts_it x y)
            | inr useless ↦ rw (send_useless other known d found useless) (
                Meets-same b proper (send me target) (λ x y.
                  let w : get_status me target b ≡ answer_of me (some d) = rw (other, found) in
                  ground (arith, w, other, known, useless, found_joins me target b.docs d found)))
          ]
        ]
  ]
