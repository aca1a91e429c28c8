-- ===== src/Friends/Kept.antt =====
-- The collection of src/friends/friends.service.ts: what its updates keep, and its other queries.
use backend_htssclub.Base.{
  ℕ, suc, ◌<◌, ◌≡◌, refl, inl, inr, true, false, ◌&&◌, Bool-cases, none, some, List, [], ◌∷◌, ◌++◌,
  ◌==◌, if◌then◌else◌, arith,
}
use backend_htssclub.Friends.{
  Friend, joins, find_between, find_request, find_block, is_taken, is_blocked, delete_doc, put_doc,
}
use backend_htssclub.Friends.Docs.{
  AreProper, AreBelow, joins_trans, find_between-request, find_between-put, find_between-snoc,
}

-- What the updates keep.
request-delete :
    (i j : ℕ) (ds : List Friend)
    → find_request j ds ≡ none
    → find_request j (delete_doc i ds) ≡ none
unfolding find_request delete_doc
request-delete i j [] e = refl
request-delete i j (c ∷ ds) e = ground (arith, request-delete i j ds)

request-put :
    (j : ℕ) (e : Friend) (ds : List Friend)
    → find_request j ds ≡ none
    → find_request j (put_doc e ds) ≡ none
unfolding find_request put_doc
request-put j e [] h = refl
request-put j e (c ∷ ds) h = ground (arith, request-put j e ds)

between-delete :
    (x y i : ℕ) (ds : List Friend)
    → find_between x y ds ≡ none
    → find_between x y (delete_doc i ds) ≡ none
unfolding find_between delete_doc
between-delete x y i [] e = refl
between-delete x y i (c ∷ ds) e = ground (arith, between-delete x y i ds)

pub AreProper-delete : (i : ℕ) (ds : List Friend) → AreProper ds → AreProper (delete_doc i ds)
unfolding delete_doc
AreProper-delete i [] p = tt
AreProper-delete i (c ∷ ds) p = elim (Bool-cases (c.id == i)) [
  | inl yes_c ↦ rw yes_c p.3
  | inr no_c ↦ rw no_c (
    between-delete c.requester_id c.addressee_id i ds p.0,
    request-delete i c.id ds p.1,
    p.2,
    AreProper-delete i ds p.3,
  )
]

pub AreBelow-delete : (n i : ℕ) (ds : List Friend) → AreBelow n ds → AreBelow n (delete_doc i ds)
unfolding delete_doc
AreBelow-delete n i [] b = tt
AreBelow-delete n i (c ∷ ds) b = ground (arith, AreBelow-delete n i ds)

pub AreBelow-put :
    (n : ℕ) (e : Friend) (ds : List Friend) → e.id < n → AreBelow n ds → AreBelow n (put_doc e ds)
unfolding put_doc
AreBelow-put n e [] h b = tt
AreBelow-put n e (c ∷ ds) h b = ground (arith, h, AreBelow-put n e ds)

pub AreProper-put :
    (e : Friend) (ds : List Friend) (d : Friend)
    → AreProper ds
    → find_request e.id ds ≡ some d
    → joins e.requester_id e.addressee_id d ≡ true
    → (e.requester_id == e.addressee_id) ≡ false
    → AreProper (put_doc e ds)
unfolding put_doc find_request
AreProper-put e [] d p f j n = tt
AreProper-put e (c ∷ ds) d p f j n = elim (Bool-cases (c.id == e.id)) [
  | inl yes_c ↦
      let g : some c ≡ some d = rw yes_c at f in
      let same : c ≡ d = cc in
      let j' : joins e.requester_id e.addressee_id c ≡ true = rw same j in
      let k : c.id ≡ e.id = ground arith in
      let absent : find_request e.id ds ≡ none = rw (← k) p.1 in
      let lone : find_between e.requester_id e.addressee_id ds ≡ none =
        rw (joins_trans e.requester_id e.addressee_id c ds j') p.0 in
      rw yes_c (lone, absent, n, p.3)
  | inr no_c ↦
      let g : find_request e.id ds ≡ some d = rw no_c at f in
      let k = find_between-request e.id ds d p.3 g in
      let put = find_between-put c.requester_id c.addressee_id e ds d p.3 g j in
      let there = joins_trans e.requester_id e.addressee_id d ds j in
      let lone : find_between c.requester_id c.addressee_id (put_doc e ds) ≡ none =
        elim (Bool-cases (joins c.requester_id c.addressee_id e)) [
          | inl l ↦
              absurd
                (ground (arith, joins_trans c.requester_id c.addressee_id e ds l, there, k, p.0))
          | inr l ↦ rw (put, l, p.0)
        ] in
      rw no_c (lone, request-put c.id e ds p.1, p.2, AreProper-put e ds d p.3 g j n)
]

pub AreBelow-snoc :
    (n : ℕ) (ds : List Friend) (d : Friend)
    → AreBelow n ds
    → d.id ≡ n
    → AreBelow (suc n) (ds ++ d ∷ [])
AreBelow-snoc n [] d b h = ground arith
AreBelow-snoc n (c ∷ ds) d b h = ground (arith, h, AreBelow-snoc n ds d)

request_fresh : (n : ℕ) (ds : List Friend) → AreBelow n ds → find_request n ds ≡ none
unfolding find_request
request_fresh n [] b = refl
request_fresh n (c ∷ ds) b = ground (arith, request_fresh n ds)

request-snoc :
    (i : ℕ) (ds : List Friend) (d : Friend)
    → find_request i ds ≡ none
    → (d.id == i) ≡ false
    → find_request i (ds ++ d ∷ []) ≡ none
unfolding find_request
request-snoc i [] d e n = ground (arith, n)
request-snoc i (c ∷ ds) d e n = ground (arith, n, request-snoc i ds d)

pub AreProper-snoc :
    (n : ℕ) (ds : List Friend) (d : Friend)
    → AreProper ds
    → AreBelow n ds
    → d.id ≡ n
    → find_between d.requester_id d.addressee_id ds ≡ none
    → (d.requester_id == d.addressee_id) ≡ false
    → AreProper (ds ++ d ∷ [])
unfolding find_between find_request
AreProper-snoc n [] d p b i e h = (refl, refl, h, tt)
AreProper-snoc n (c ∷ ds) d p b i e h =
    let apart : joins d.requester_id d.addressee_id c ≡ false = ground (arith, e) in
    let rest : find_between d.requester_id d.addressee_id ds ≡ none = rw apart at e in
    let lone : find_between c.requester_id c.addressee_id (ds ++ d ∷ []) ≡ none =
      rw (find_between-snoc c.requester_id c.addressee_id ds d rest) (ground (arith, apart, p.0)) in
    (
      lone,
      request-snoc c.id ds d p.1 (ground (arith, i)),
      p.2,
      AreProper-snoc n ds d p.3 b.1 i rest h,
    )

pub untaken :
    (i a b : ℕ) (ds : List Friend) → find_between a b ds ≡ none → is_taken i a b ds ≡ false
unfolding find_between is_taken
untaken i a b [] e = refl
untaken i a b (c ∷ ds) e = ground (arith, untaken i a b ds)

pub untaken_found :
    (a b : ℕ) (ds : List Friend) (d : Friend)
    → AreProper ds
    → find_between a b ds ≡ some d
    → is_taken d.id a b ds ≡ false
unfolding find_between is_taken
untaken_found a b [] d p e = refl
untaken_found a b (c ∷ ds) d p e = elim (Bool-cases (joins a b c)) [
  | inl j ↦
      let f : some c ≡ some d = rw j at e in
      let same : c ≡ d = cc in
      let lone : find_between a b ds ≡ none = rw (joins_trans a b c ds j) p.0 in
      let k : c.id ≡ d.id = rw same in ground (arith, k, untaken d.id a b ds lone)
  | inr j ↦
      let f : find_between a b ds ≡ some d = rw j at e in
      ground (arith, untaken_found a b ds d p.3 f)
]

pub no_block : (a b : ℕ) (ds : List Friend) → find_between a b ds ≡ none → find_block a b ds ≡ none
unfolding find_between find_block
no_block a b [] e = refl
no_block a b (c ∷ ds) e = ground (arith, no_block a b ds)

pub find_block_lem :
    (a b : ℕ) (ds : List Friend) (d : Friend)
    → AreProper ds
    → find_between a b ds ≡ some d
    → find_block a b ds ≡ (if d.requester_id == a && is_blocked d.state then some d else none)
unfolding find_between find_block
find_block_lem a b [] d p e = ground arith
find_block_lem a b (c ∷ ds) d p e = elim (Bool-cases (joins a b c)) [
  | inl j ↦
      let f : some c ≡ some d = rw j at e in
      let same : c ≡ d = cc in
      let lone : find_between a b ds ≡ none = rw (joins_trans a b c ds j) p.0 in
      rw (← same) (ground (arith, j, p.2, no_block a b ds lone))
  | inr j ↦
      let f : find_between a b ds ≡ some d = rw j at e in
      ground (arith, j, find_block_lem a b ds d p.3 f)
]
