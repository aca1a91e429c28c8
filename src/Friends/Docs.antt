-- ===== src/Friends/Docs.antt =====
-- The collection of src/friends/friends.service.ts: what its queries find after its updates.
use backend_htssclub.Base.{
  ℕ, ◌<◌, ◌≡◌, refl, inl, inr, true, false, ◌&&◌, Bool-cases, none, some, List, [], ◌∷◌, ◌++◌, ◌==◌,
  if◌then◌else◌, arith, All,
}
use backend_htssclub.Friends.{Friend, joins, find_between, find_request, delete_doc, put_doc}

-- One document for two users, one for an id, and none of a user with themselves.
abbrev pub AreProper : List Friend → Type 0
AreProper [] = Unit
AreProper (d ∷ ds) =
    (find_between d.requester_id d.addressee_id ds ≡ none)
    × (find_request d.id ds ≡ none)
    × ((d.requester_id == d.addressee_id) ≡ false)
    × AreProper ds

abbrev pub AreBelow : ℕ → List Friend → Type 0
AreBelow n ds = All (λ d. d.id < n) ds

pub find_between_comm : (a b : ℕ) (ds : List Friend) → find_between a b ds ≡ find_between b a ds
unfolding find_between
find_between_comm a b [] = refl
find_between_comm a b (d ∷ ds) = ground (arith, find_between_comm a b ds)

pub found_joins :
    (a b : ℕ) (ds : List Friend) (d : Friend) → find_between a b ds ≡ some d → joins a b d ≡ true
unfolding find_between
found_joins a b [] d e = ground arith
found_joins a b (x ∷ ds) d e = elim (Bool-cases (joins a b x)) [
  | inl yes_x ↦
      let f : some x ≡ some d = rw yes_x at e in let same : x ≡ d = cc in rw (← same) yes_x
  | inr no_x ↦ let f : find_between a b ds ≡ some d = rw no_x at e in found_joins a b ds d f
]

-- Two users with a joint document are the two users of the other.
pub joins_trans :
    (a b : ℕ) (d : Friend) (ds : List Friend)
    → joins a b d ≡ true
    → find_between a b ds ≡ find_between d.requester_id d.addressee_id ds
joins_trans a b d ds j = elim (Bool-cases (d.requester_id == a && d.addressee_id == b)) [
  | inl same ↦
      let e : d.requester_id ≡ a = ground arith in
      let f : d.addressee_id ≡ b = ground arith in rw (e, f)
  | inr other ↦
      let e : d.requester_id ≡ b = ground arith in
      let f : d.addressee_id ≡ a = ground arith in rw (e, f, find_between_comm b a ds)
]

pub request-id : (i : ℕ) (ds : List Friend) (d : Friend) → find_request i ds ≡ some d → d.id ≡ i
unfolding find_request
request-id i [] d e = ground arith
request-id i (x ∷ ds) d e = elim (Bool-cases (x.id == i)) [
  | inl yes_x ↦
      let f : some x ≡ some d = rw yes_x at e in let same : x ≡ d = cc in rw (← same) (ground arith)
  | inr no_x ↦ let f : find_request i ds ≡ some d = rw no_x at e in request-id i ds d f
]

at_same :
    (i j : ℕ) (ds : List Friend) (d : Friend)
    → j ≡ i
    → find_request i ds ≡ some d
    → find_request j ds ≡ some d
at_same i j ds d e found = rw e found

pub request_itself :
    (i : ℕ) (ds : List Friend) (d : Friend)
    → find_request i ds ≡ some d
    → find_request d.id ds ≡ some d
request_itself i ds d found = at_same i d.id ds d (request-id i ds d found) found

pub request_below :
    (n i : ℕ) (ds : List Friend) (d : Friend)
    → AreBelow n ds
    → find_request i ds ≡ some d
    → d.id < n
unfolding find_request
request_below n i [] d b e = ground arith
request_below n i (x ∷ ds) d b e = elim (Bool-cases (x.id == i)) [
  | inl yes_x ↦ let f : some x ≡ some d = rw yes_x at e in let same : x ≡ d = cc in rw (← same) b.0
  | inr no_x ↦ let f : find_request i ds ≡ some d = rw no_x at e in request_below n i ds d b.1 f
]

pub request_apart :
    (i : ℕ) (ds : List Friend) (d : Friend)
    → AreProper ds
    → find_request i ds ≡ some d
    → (d.requester_id == d.addressee_id) ≡ false
unfolding find_request
request_apart i [] d p e = ground arith
request_apart i (x ∷ ds) d p e = elim (Bool-cases (x.id == i)) [
  | inl yes_x ↦ let f : some x ≡ some d = rw yes_x at e in let same : x ≡ d = cc in rw (← same) p.2
  | inr no_x ↦ let f : find_request i ds ≡ some d = rw no_x at e in request_apart i ds d p.3 f
]

pub found_between-request :
    (a b : ℕ) (ds : List Friend) (d : Friend)
    → AreProper ds
    → find_between a b ds ≡ some d
    → find_request d.id ds ≡ some d
unfolding find_between find_request
found_between-request a b [] d p e = ground arith
found_between-request a b (x ∷ ds) d p e = elim (Bool-cases (joins a b x)) [
  | inl yes_x ↦
      let f : some x ≡ some d = rw yes_x at e in let same : x ≡ d = cc in rw (← same) (ground arith)
  | inr no_x ↦
      let f : find_between a b ds ≡ some d = rw no_x at e in
      let g : find_request d.id ds ≡ some d = found_between-request a b ds d p.3 f in
      elim (Bool-cases (x.id == d.id)) [
        | inl same ↦
            let k : x.id ≡ d.id = ground arith in
            let absent : find_request d.id ds ≡ none = rw (← k) p.1 in ground (arith, absent, g)
        | inr other ↦ rw other g
      ]
]

pub find_between-request :
    (i : ℕ) (ds : List Friend) (d : Friend)
    → AreProper ds
    → find_request i ds ≡ some d
    → find_between d.requester_id d.addressee_id ds ≡ some d
unfolding find_between find_request
find_between-request i [] d p e = ground arith
find_between-request i (x ∷ ds) d p e = elim (Bool-cases (x.id == i)) [
  | inl yes_x ↦
      let f : some x ≡ some d = rw yes_x at e in let same : x ≡ d = cc in rw (← same) (ground arith)
  | inr no_x ↦
      let f : find_request i ds ≡ some d = rw no_x at e in
      let g = find_between-request i ds d p.3 f in
      elim (Bool-cases (joins d.requester_id d.addressee_id x)) [
        | inl same ↦
            let k = joins_trans d.requester_id d.addressee_id x ds same in ground (arith, k, p.0, g)
        | inr other ↦ rw other g
      ]
]

module _ (x y : ℕ) where
  pub find_between-delete :
      (i : ℕ) (ds : List Friend) (d : Friend)
      → AreProper ds
      → find_request i ds ≡ some d
      → find_between x y (delete_doc i ds) ≡ (if joins x y d then none else find_between x y ds)
  unfolding find_between find_request delete_doc
  find_between-delete i [] d p e = ground arith
  find_between-delete i (c ∷ ds) d p e = elim (Bool-cases (c.id == i)) [
    | inl yes_c ↦
        let f : some c ≡ some d = rw yes_c at e in
        let same : c ≡ d = cc in
        rw (yes_c, ← same)
          (elim (Bool-cases (joins x y c)) [
            | inl j ↦ rw (j, joins_trans x y c ds j) p.0
            | inr j ↦ rw j
          ])
    | inr no_c ↦
        let f : find_request i ds ≡ some d = rw no_c at e in
        let g = find_between-delete i ds d p.3 f in
        let h = find_between-request i ds d p.3 f in
        rw no_c (elim (Bool-cases (joins x y c)) [
          | inl j ↦ elim (Bool-cases (joins x y d)) [
            | inl k ↦
                absurd (ground (arith, joins_trans x y c ds j, joins_trans x y d ds k, p.0, h))
            | inr k ↦ rw (j, k)
          ]
          | inr j ↦ rw (j, g)
        ])
  ]

  pub find_between-put :
      (e : Friend) (ds : List Friend) (d : Friend)
      → AreProper ds
      → find_request e.id ds ≡ some d
      → joins e.requester_id e.addressee_id d ≡ true
      → find_between x y (put_doc e ds) ≡ (if joins x y e then some e else find_between x y ds)
  unfolding find_between find_request put_doc
  find_between-put e [] d p f j = ground arith
  find_between-put e (c ∷ ds) d p f j = elim (Bool-cases (c.id == e.id)) [
    | inl yes_c ↦
        let g : some c ≡ some d = rw yes_c at f in
        let same : c ≡ d = cc in
        let j' : joins e.requester_id e.addressee_id c ≡ true = rw same j in
        rw yes_c (ground (arith, j'))
    | inr no_c ↦
        let g : find_request e.id ds ≡ some d = rw no_c at f in
        let h = find_between-put e ds d p.3 g j in
        let k = find_between-request e.id ds d p.3 g in
        rw no_c (elim (Bool-cases (joins x y c)) [
          | inl l ↦ elim (Bool-cases (joins x y e)) [
            | inl m ↦ absurd (
                ground (
                  arith,
                  joins_trans x y c ds l,
                  joins_trans x y e ds m,
                  joins_trans e.requester_id e.addressee_id d ds j,
                  p.0,
                  k,
                ))
            | inr m ↦ rw (l, m)
          ]
          | inr l ↦ rw (l, h)
        ])
  ]

  pub find_between-snoc :
      (ds : List Friend) (d : Friend)
      → find_between d.requester_id d.addressee_id ds ≡ none
      → find_between x y (ds ++ d ∷ []) ≡ (if joins x y d then some d else find_between x y ds)
  unfolding find_between
  find_between-snoc [] d e = refl
  find_between-snoc (c ∷ ds) d e = elim (Bool-cases (joins d.requester_id d.addressee_id c)) [
    | inl same ↦ ground (arith, same, e)
    | inr other ↦
        let rest : find_between d.requester_id d.addressee_id ds ≡ none = rw other at e in
        ground (arith, other, find_between-snoc ds d rest)
  ]
