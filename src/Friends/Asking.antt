-- ===== src/Friends/Asking.antt =====
-- `accept` and `decline` of src/friends/friends.service.ts meet what is expected.
use backend_htssclub.Base.{
  ℕ, ◌≡◌, inl, inr, true, false, ◌&&◌, Bool-cases, Option-cases, none, some, List, ◌∷◌, ◌==◌, arith,
}
use backend_htssclub.Common.Enums.{accepted}
use backend_htssclub.Common.Action.{◌>>=◌}
use backend_htssclub.Common.Action.After.{After}
use backend_htssclub.Friends.{
  Friend, Book, joins, find_between, find_request, delete_doc, put_doc, is_pending, new_doc, save,
  emit_friend_event, pending_request, accept, decline, declined_event, accepted_event,
  friend_accepted_notice, answer_of, get_status, accepts, declines,
}
use backend_htssclub.Friends.Docs.{
  AreProper, found_joins, joins_trans, found_between-request, find_between-request, request_below,
  request-id, request_itself, request_apart,
}
use backend_htssclub.Friends.Kept.{untaken_found}
use backend_htssclub.Friends.Expected.{IsProper, awaits, Meets, Meets-same, Meets-delete, Meets-put}

-- The document of an awaited request.
module _ (me request x y : ℕ) (ds : List Friend) (proper : AreProper ds) where
  pub awaits_found :
      (d : Friend)
      → find_request request ds ≡ some d
      → (x == y) ≡ false
      → awaits me request x y (answer_of x (find_between x y ds))
        ≡ (joins x y d && (d.addressee_id == me && is_pending d.state))
  awaits_found d found n = elim (Bool-cases (joins x y d)) [
    | inl j ↦
        let there : find_between x y ds ≡ some d =
          rw (joins_trans x y d ds j) (find_between-request request ds d proper found) in
        let k : d.id ≡ request = request-id request ds d found in rw there (ground (arith, j, k, n))
    | inr j ↦ elim (Option-cases (find_between x y ds)) [
      | inl absent ↦ rw absent (ground (arith, j))
      | inr (e, there) ↦
          let f = found_between-request x y ds e proper there in
          let k = found_joins x y ds e there in
          elim (Bool-cases (e.id == request)) [
            | inl same ↦
                let i : e.id ≡ request = ground arith in
                let g : some e ≡ some d = rw (← f, i) found in
                let q : e ≡ d = cc in
                let j' : joins x y e ≡ false = rw q j in absurd (ground (arith, k, j'))
            | inr other ↦ rw there (ground (arith, j, other))
          ]
    ]
  ]

  awaits-none :
      find_request request ds ≡ none
      → awaits me request x y (answer_of x (find_between x y ds)) ≡ false
  awaits-none absent = elim (Option-cases (find_between x y ds)) [
    | inl nobody ↦ rw nobody
    | inr (e, there) ↦
        let f = found_between-request x y ds e proper there in
        elim (Bool-cases (e.id == request)) [
          | inl same ↦
              let k : e.id ≡ request = ground arith in absurd (ground (arith, k, f, absent))
          | inr other ↦ rw there (ground (arith, other))
        ]
  ]

-- Answering a request.
module _ (b : Book) (me request : ℕ) where
  unasked : find_request request b.docs ≡ none → (accept me request b).1 ≡ b
  unfolding accept pending_request ◌>>=◌
  unasked e = rw e

  undeclined : find_request request b.docs ≡ none → (decline me request b).1 ≡ b
  unfolding decline pending_request ◌>>=◌
  undeclined e = rw e

  module _ (d : Friend) (found : find_request request b.docs ≡ some d) where
    accept_refused :
        (d.addressee_id == me && is_pending d.state) ≡ false → (accept me request b).1 ≡ b
    unfolding accept pending_request ◌>>=◌
    accept_refused e = elim (Bool-cases (d.addressee_id == me)) [
      | inr other ↦ rw (found, other)
      | inl mine ↦
          let old : is_pending d.state ≡ false = ground (mine, arith, e) in rw (found, mine, old)
    ]

    decline_refused :
        (d.addressee_id == me && is_pending d.state) ≡ false → (decline me request b).1 ≡ b
    unfolding decline pending_request ◌>>=◌
    decline_refused e = elim (Bool-cases (d.addressee_id == me)) [
      | inr other ↦ rw (found, other)
      | inl mine ↦
          let old : is_pending d.state ≡ false = ground (mine, arith, e) in rw (found, mine, old)
    ]

    module _ (may : (d.addressee_id == me && is_pending d.state) ≡ true) where
      mine : (d.addressee_id == me) ≡ true
      mine = ground (arith, may)

      open_request : is_pending d.state ≡ true
      open_request = ground (arith, may)

      decline_done : (decline me request b).1 ≡ record b {
        docs = delete_doc d.id b.docs;
        events = declined_event d.requester_id me request ∷ b.events;
      }
      unfolding decline pending_request ◌>>=◌ emit_friend_event
      decline_done = rw (found, mine, open_request)

      accept_done :
          AreProper b.docs
          → (accept me request b).1 ≡ record b {
            docs = put_doc (new_doc d.id d.requester_id d.addressee_id accepted) b.docs;
            events =
                accepted_event d.requester_id me d.id
                ∷ friend_accepted_notice d.requester_id me
                ∷ b.events;
          }
      unfolding accept pending_request save ◌>>=◌ emit_friend_event
      accept_done p =
          let there = find_between-request request b.docs d p found in
          rw (
            found,
            mine,
            open_request,
            untaken_found d.requester_id d.addressee_id b.docs d p there,
          )

  pub decline-Meets :
      (proper : IsProper b) → After (Meets b proper (declines me request)) (decline me request) b
  unfolding get_status
  decline-Meets proper = elim (Option-cases (find_request request b.docs)) [
    | inl absent ↦ rw (undeclined absent) (
        Meets-same b proper (declines me request)
          (λ x y. ground (arith, awaits-none me request x y b.docs proper.0 absent)))
    | inr (d, found) ↦ elim (Bool-cases (d.addressee_id == me && is_pending d.state)) [
      | inl may ↦ rw (decline_done d found may) (
          Meets-delete b proper (declines me request) d.id d (request_itself request b.docs d found)
            (λ x y n. ground (arith, n, may, awaits_found me request x y b.docs proper.0 d found n))
            (λ x y n. ground (arith, n)))
      | inr refused ↦ rw (decline_refused d found refused) (
          Meets-same b proper (declines me request) (λ x y. elim (Bool-cases (x == y)) [
            | inl self ↦ ground (arith, self)
            | inr n ↦
                ground (arith, n, refused, awaits_found me request x y b.docs proper.0 d found n)
          ]))
    ]
  ]

  pub accept-Meets :
      (proper : IsProper b) → After (Meets b proper (accepts me request)) (accept me request) b
  unfolding get_status
  accept-Meets proper = elim (Option-cases (find_request request b.docs)) [
    | inl absent ↦ rw (unasked absent) (
        Meets-same b proper (accepts me request)
          (λ x y. ground (arith, awaits-none me request x y b.docs proper.0 absent)))
    | inr (d, found) ↦ elim (Bool-cases (d.addressee_id == me && is_pending d.state)) [
      | inl may ↦
          let there = request_itself request b.docs d found in
          let e = new_doc d.id d.requester_id d.addressee_id accepted in
          rw (accept_done d found may proper.0) (
            Meets-put b proper (accepts me request) e d there (ground arith)
              (request_apart request b.docs d proper.0 found)
              (request_below b.next_id d.id b.docs d proper.1 there)
              (λ x y n. elim (Bool-cases (joins x y d)) [
                | inl j ↦
                    let old : find_between x y b.docs ≡ some d =
                      rw (joins_trans x y d b.docs j)
                        (find_between-request request b.docs d proper.0 found) in
                    ground
                      (arith, n, may, j, old, awaits_found me request x y b.docs proper.0 d found n)
                | inr j ↦
                    ground (arith, n, may, j, awaits_found me request x y b.docs proper.0 d found n)
              ])
              (λ x y n. ground (arith, n)))
      | inr refused ↦ rw (accept_refused d found refused) (
          Meets-same b proper (accepts me request) (λ x y. elim (Bool-cases (x == y)) [
            | inl self ↦ ground (arith, self)
            | inr n ↦
                ground (arith, n, refused, awaits_found me request x y b.docs proper.0 d found n)
          ]))
    ]
  ]
