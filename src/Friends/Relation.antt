-- ===== src/Friends/Relation.antt =====
-- The requests of src/friends/friends.service.ts as steps of the relation between users.
use backend_htssclub.Base.{
  ℕ, ◌≡◌, ◌⊎◌, inl, inr, Bool, true, false, ◌&&◌, Bool-cases, Option-cases, List, [], ◌∷◌, ◌==◌,
  arith, contains,
}
use backend_htssclub.Common.Action.{pure, ◌>>=◌}
use backend_htssclub.Common.Action.After.{After-then}
use backend_htssclub.Friends.{
  Book, find_between, send_request, accept, block, status_none, status_blocked, status_blocked_by,
  get_status, Request, send, removes, blocks, unblocks, accepts, declines, handle,
}
use backend_htssclub.Friends.Docs.{find_between_comm}
use backend_htssclub.Friends.Expected.{IsProper, expected, Meets, concerns}
use backend_htssclub.Friends.Parting.{remove-Meets, unblock-Meets, block-Meets}
use backend_htssclub.Friends.Asking.{accept-Meets, decline-Meets}
use backend_htssclub.Friends.Sending.{send-Meets}

handle-Meets : (b : Book) (p : IsProper b) (r : Request) → Meets b p r (handle r b).1
unfolding ◌>>=◌
handle-Meets b p (send me t) =
    After-then (Meets b p (send me t)) (send_request me t) (λ d. pure tt) b (send-Meets b me t p)
      (λ d s h. h)
handle-Meets b p (removes me t) = remove-Meets b me t p
handle-Meets b p (blocks me t) =
    After-then (Meets b p (blocks me t)) (block me t) (λ d. pure tt) b (block-Meets b me t p)
      (λ d s h. h)
handle-Meets b p (unblocks me t) = unblock-Meets b me t p
handle-Meets b p (accepts me i) =
    After-then (Meets b p (accepts me i)) (accept me i) (λ d. pure tt) b (accept-Meets b me i p)
      (λ d s h. h)
handle-Meets b p (declines me i) = decline-Meets b me i p

-- Every request, refused or not, changes what `getStatus` answers to every two users exactly as
-- the relation says, in a book with at most one document for two users and for an id.
pub get_status-handle :
    (b : Book)
    → IsProper b
    → (r : Request) (x y : ℕ)
    → get_status x y (handle r b).1 ≡ expected r b.users b.next_id (λ a c. get_status a c b) x y
get_status-handle b p r x y = (handle-Meets b p r).2 x y

abbrev pub serve_requests : List Request → Book → Book
serve_requests [] b = b
serve_requests (r ∷ rs) b = serve_requests rs (handle r b).1

-- Over every history of requests, refused ones included, two users share at most one document, no
-- document is a user's own, and ids stay unique.
pub serve_requests-IsProper :
    (rs : List Request) (b : Book) → IsProper b → IsProper (serve_requests rs b)
serve_requests-IsProper [] b p = p
serve_requests-IsProper (r ∷ rs) b p =
    let (q, below, _) = handle-Meets b p r in serve_requests-IsProper rs (handle r b).1 (q, below)

-- Whether a request is one that may lift or turn the block of `a` on `c`.
abbrev pub touches_block : ℕ → ℕ → Request → Bool
touches_block a c (unblocks me target) = me == a && target == c
touches_block a c (blocks me target) = me == c && target == a
touches_block a c _ = false

seen_block :
    (b : Book) (a c : ℕ)
    → (get_status a c b).status ≡ status_blocked
    → (get_status c a b).status ≡ status_blocked_by
unfolding get_status
seen_block b a c h = elim (Option-cases (find_between a c b.docs)) [
  | inl absent ↦ absurd (ground (arith, h, absent))
  | inr (d, found) ↦ ground (arith, h, found, find_between_comm c a b.docs)
]

seen_by :
    (b : Book) (a c me t : ℕ)
    → (get_status a c b).status ≡ status_blocked
    → concerns me t a c ≡ true
    → ((me == a && t == c) ≡ true) × ((get_status me t b).status ≡ status_blocked)
      ⊎ (((me == c && t == a) ≡ true) × ((get_status me t b).status ≡ status_blocked_by))
seen_by b a c me t h k = elim (Bool-cases (me == a && t == c)) [
  | inl same ↦
      let e : me ≡ a = ground arith in let f : t ≡ c = ground arith in inl (same, rw (e, f) h)
  | inr other ↦
      let e : me ≡ c = ground arith in
      let f : t ≡ a = ground arith in inr (ground arith, rw (e, f) (seen_block b a c h))
]

-- A block stands against every request but the blocker's own unblocking and a block in return.
pub block_stands :
    (b : Book)
    → IsProper b
    → (a c : ℕ) → (get_status a c b).status ≡ status_blocked
    → (r : Request) → touches_block a c r ≡ false
    → (get_status a c (handle r b).1).status ≡ status_blocked
block_stands b p a c h (send me t) free =
    rw (get_status-handle b p (send me t) a c) (elim (Bool-cases (concerns me t a c)) [
      | inl k ↦ elim (seen_by b a c me t h k) [
        | inl (same, v) ↦ ground (arith, h, k, same, v, free)
        | inr (turned, v) ↦ ground (arith, h, k, turned, v, free)
      ]
      | inr k ↦ ground (arith, h, k)
    ])
block_stands b p a c h (removes me t) free =
    rw (get_status-handle b p (removes me t) a c) (elim (Bool-cases (concerns me t a c)) [
      | inl k ↦ elim (seen_by b a c me t h k) [
        | inl (same, v) ↦ ground (arith, h, k, same, v, free)
        | inr (turned, v) ↦ ground (arith, h, k, turned, v, free)
      ]
      | inr k ↦ ground (arith, h, k)
    ])
block_stands b p a c h (blocks me t) free =
    rw (get_status-handle b p (blocks me t) a c) (elim (Bool-cases (concerns me t a c)) [
      | inl k ↦ elim (seen_by b a c me t h k) [
        | inl (same, v) ↦ ground (arith, h, k, same, v, free)
        | inr (turned, v) ↦ ground (arith, h, k, turned, v, free)
      ]
      | inr k ↦ ground (arith, h, k)
    ])
block_stands b p a c h (unblocks me t) free =
    rw (get_status-handle b p (unblocks me t) a c) (elim (Bool-cases (concerns me t a c)) [
      | inl k ↦ elim (seen_by b a c me t h k) [
        | inl (same, v) ↦ ground (arith, h, k, same, v, free)
        | inr (turned, v) ↦ ground (arith, h, k, turned, v, free)
      ]
      | inr k ↦ ground (arith, h, k)
    ])
block_stands b p a c h (accepts me i) free =
    rw (get_status-handle b p (accepts me i) a c) (ground (arith, h))
block_stands b p a c h (declines me i) free =
    rw (get_status-handle b p (declines me i) a c) (ground (arith, h))

lifted :
    (b : Book)
    → IsProper b
    → (c a : ℕ) → (get_status c a b).status ≡ status_blocked
    → let b' = (handle (unblocks c a) b).1 in
      ((get_status a c b').status ≡ status_none) × ((get_status c a b').status ≡ status_none)
lifted b p c a v = (
  rw (get_status-handle b p (unblocks c a) a c) (ground (arith, v)),
  rw (get_status-handle b p (unblocks c a) c a) (ground (arith, v)),
)

apart : (b : Book) (a c : ℕ) → (get_status a c b).status ≡ status_blocked → (c == a) ≡ false
unfolding get_status
apart b a c h = ground (arith, h)

-- A blocked user who blocks in return and then lifts that block is rid of both: no relation is left,
-- from either side.
pub turned_block_lifts :
    (b : Book)
    → IsProper b
    → (a c : ℕ) → (get_status a c b).status ≡ status_blocked
    → contains a b.users ≡ true
    → let b' = serve_requests (blocks c a ∷ unblocks c a ∷ []) b in
      ((get_status a c b').status ≡ status_none) × ((get_status c a b').status ≡ status_none)
turned_block_lifts b p a c h known =
    let b₁ = (handle (blocks c a) b).1 in
    let p₁ = serve_requests-IsProper (blocks c a ∷ []) b p in
    let n = apart b a c h in
    let v : (get_status c a b₁).status ≡ status_blocked =
      rw (get_status-handle b p (blocks c a) c a) (ground (arith, n, known)) in
    lifted b₁ p₁ c a v
