-- ===== src/Friends/Parting.antt =====
-- `removeFriend`, `block` and `unblock` of src/friends/friends.service.ts meet what is expected.
use backend_htssclub.Base.{
  ℕ, suc, ◌≡◌, inl, inr, true, false, not, ◌&&◌, Bool-cases, Option-cases, none, some, [], ◌∷◌,
  ◌++◌, ◌==◌, arith, contains,
}
use backend_htssclub.Common.Enums.{blocked}
use backend_htssclub.Common.Action.{◌>>=◌}
use backend_htssclub.Common.Action.After.{After}
use backend_htssclub.Friends.{
  Friend, Book, find_between, find_block, delete_doc, put_doc, is_accepted, is_blocked, new_doc,
  save, insert_doc, emit_friend_event, removed_event, remove_friend, block_between, block, unblock,
  answer_of, get_status, removes, blocks, unblocks,
}
use backend_htssclub.Friends.Docs.{AreProper, found_joins, found_between-request, request_below}
use backend_htssclub.Friends.Kept.{untaken, untaken_found, no_block, find_block_lem}
use backend_htssclub.Friends.Expected.{
  IsProper, unrelated, concerns, Meets, Meets-same, Meets-delete, Meets-put, Meets-snoc,
  view_between,
}

-- Removing a friend.
module _ (b : Book) (me target : ℕ) where
  remove_absent : find_between me target b.docs ≡ none → (remove_friend me target b).1 ≡ b
  unfolding remove_friend ◌>>=◌
  remove_absent e = rw e

  module _ (d : Friend) (found : find_between me target b.docs ≡ some d) where
    remove_refused : is_accepted d.state ≡ false → (remove_friend me target b).1 ≡ b
    unfolding remove_friend ◌>>=◌
    remove_refused e = rw (found, e)

    remove_done :
        is_accepted d.state ≡ true
        → (remove_friend me target b).1
          ≡ record b { docs = delete_doc d.id b.docs; events = removed_event target me ∷ b.events }
    unfolding remove_friend ◌>>=◌ emit_friend_event
    remove_done e = rw (found, e)

  pub remove-Meets :
      (proper : IsProper b) → After (Meets b proper (removes me target)) (remove_friend me target) b
  unfolding get_status
  remove-Meets proper = elim (Option-cases (find_between me target b.docs)) [
    | inl absent ↦
        rw (remove_absent absent)
          (Meets-same b proper (removes me target) (λ x y. rw absent (ground arith)))
    | inr (d, found) ↦ elim (Bool-cases (is_accepted d.state)) [
      | inl friends ↦ rw (remove_done d found friends) (
          Meets-delete b proper (removes me target) d.id d
            (found_between-request me target b.docs d proper.0 found)
            (λ x y n. rw found (ground (arith, n, friends, found_joins me target b.docs d found)))
            (λ x y n. rw found (ground (arith, n))))
      | inr strangers ↦
          rw (remove_refused d found strangers)
            (Meets-same b proper (removes me target) (λ x y. rw found (ground (arith, strangers))))
    ]
  ]

-- Lifting a block.
module _ (b : Book) (me target : ℕ) where
  unblock_refused : find_block me target b.docs ≡ none → (unblock me target b).1 ≡ b
  unfolding unblock ◌>>=◌
  unblock_refused e = rw e

  unblock_done :
      (d : Friend)
      → find_block me target b.docs ≡ some d
      → (unblock me target b).1 ≡ record b { docs = delete_doc d.id b.docs }
  unfolding unblock ◌>>=◌
  unblock_done d e = rw e

  pub unblock-Meets :
      (proper : IsProper b) → After (Meets b proper (unblocks me target)) (unblock me target) b
  unfolding get_status
  unblock-Meets proper = elim (Option-cases (find_between me target b.docs)) [
    | inl absent ↦
        rw (unblock_refused (no_block me target b.docs absent))
          (Meets-same b proper (unblocks me target) (λ x y. rw absent (ground arith)))
    | inr (d, found) ↦
        let block_of = find_block_lem me target b.docs d proper.0 found in
        elim (Bool-cases (d.requester_id == me && is_blocked d.state)) [
          | inl own ↦
              let there : find_block me target b.docs ≡ some d = rw (block_of, own) in
              rw (unblock_done d there) (
                Meets-delete b proper (unblocks me target) d.id d
                  (found_between-request me target b.docs d proper.0 found)
                  (λ x y n. rw found (ground (arith, n, own, found_joins me target b.docs d found)))
                  (λ x y n. rw found (ground (arith, n))))
          | inr other ↦
              let absent : find_block me target b.docs ≡ none = rw (block_of, other) in
              rw (unblock_refused absent)
                (Meets-same b proper (unblocks me target) (λ x y. rw found (ground (arith, other))))
        ]
  ]

-- Blocking.
module _ (b : Book) (me target : ℕ) where
  block_refused :
      ((not (me == target)) && contains target b.users) ≡ false → (block me target b).1 ≡ b
  unfolding block ◌>>=◌
  block_refused e = elim (Bool-cases (me == target)) [
    | inl self ↦ rw self
    | inr other ↦
        let unknown : contains target b.users ≡ false = ground (arith, e) in rw (other, unknown)
  ]

  module _ (other : (me == target) ≡ false) (known : contains target b.users ≡ true) where
    block_new :
        find_between me target b.docs ≡ none
        → (block me target b).1 ≡ record b {
          docs = b.docs ++ new_doc b.next_id me target blocked ∷ [];
          next_id = suc b.next_id;
        }
    unfolding block block_between insert_doc ◌>>=◌
    block_new e = rw (other, known, e, untaken b.next_id me target b.docs e)

    block_over :
        (d : Friend)
        → AreProper b.docs
        → find_between me target b.docs ≡ some d
        → (block me target b).1
          ≡ record b { docs = put_doc (new_doc d.id me target blocked) b.docs }
    unfolding block block_between save ◌>>=◌
    block_over d p e = rw (other, known, e, untaken_found me target b.docs d p e)

  pub block-Meets :
      (proper : IsProper b) → After (Meets b proper (blocks me target)) (block me target) b
  unfolding get_status
  block-Meets proper = elim (Bool-cases (not (me == target) && contains target b.users)) [
    | inr refused ↦
        rw (block_refused refused)
          (Meets-same b proper (blocks me target) (λ x y. ground (arith, refused)))
    | inl may ↦
        let other : (me == target) ≡ false = ground (arith, may) in
        let known : contains target b.users ≡ true = ground (arith, may) in
        elim (Option-cases (find_between me target b.docs)) [
          | inl absent ↦ rw (block_new other known absent) (
              Meets-snoc b proper (blocks me target) me target blocked absent other
                (λ x y n. elim (Bool-cases (concerns me target x y)) [
                  | inl c ↦
                      let v : get_status x y b ≡ unrelated =
                        rw (view_between me target x y b c n, absent) in
                      ground (arith, c, other, known, n, v)
                  | inr c ↦ ground (arith, c)
                ])
                (λ x y n. ground (arith, other, n)))
          | inr (d, found) ↦ rw (block_over other known d proper.0 found) (
              Meets-put b proper (blocks me target) (new_doc d.id me target blocked) d
                (found_between-request me target b.docs d proper.0 found)
                (found_joins me target b.docs d found) other
                (request_below b.next_id d.id b.docs d proper.1
                  (found_between-request me target b.docs d proper.0 found))
                (λ x y n. elim (Bool-cases (concerns me target x y)) [
                  | inl c ↦
                      let v : get_status x y b ≡ answer_of x (some d) =
                        rw (view_between me target x y b c n, found) in
                      ground (arith, c, other, known, n, v)
                  | inr c ↦ ground (arith, c)
                ])
                (λ x y n. ground (arith, other, n)))
        ]
  ]
