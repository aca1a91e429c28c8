-- ===== src/Friends/Listed.antt =====
-- `listFriends` of src/friends/friends.service.ts against `getStatus`.
use backend_htssclub.Base.{
  ℕ, ◌≡◌, refl, inl, inr, Bool, false, ◌&&◌, Bool-cases, Option, Option-cases, none, some, List, [],
  ◌∷◌, ◌==◌, arith, contains, keep,
}
use backend_htssclub.Friends.{
  Friend, Book, joins, find_between, is_accepted, friend_ids, list_friends, get_status,
}
use backend_htssclub.Friends.Docs.{AreProper, joins_trans}
use backend_htssclub.Friends.Expected.{IsProper, is_friends}

abbrev is_friendship : Option Friend → Bool
is_friendship none = false
is_friendship (some d) = is_accepted d.state

module _ (me : ℕ) where
  contains-friend_ids :
      (u : ℕ) (ds : List Friend)
      → AreProper ds
      → (me == u) ≡ false
      → contains u (friend_ids me ds) ≡ is_friendship (find_between me u ds)
  unfolding friend_ids find_between
  contains-friend_ids u [] p n = refl
  contains-friend_ids u (d ∷ ds) p n = elim (Bool-cases (joins me u d)) [
    | inl j ↦
        let lone : find_between me u ds ≡ none = rw (joins_trans me u d ds j) p.0 in
        let rest : contains u (friend_ids me ds) ≡ false =
          rw (contains-friend_ids u ds p.3 n, lone) in
        ground (arith, j, n, rest)
    | inr j ↦ ground (arith, j, n, contains-friend_ids u ds p.3 n)
  ]

  never_own : (ds : List Friend) → AreProper ds → contains me (friend_ids me ds) ≡ false
  unfolding friend_ids
  never_own [] p = refl
  never_own (d ∷ ds) p = ground (arith, p.2, never_own ds p.3)

contains-keep :
    (u : ℕ) (p : ℕ → Bool) (us : List ℕ) → contains u (keep p us) ≡ (contains u us && p u)
contains-keep u p [] = refl
contains-keep u p (v ∷ us) = elim (Bool-cases (v == u)) [
  | inl same ↦ let e : v ≡ u = ground arith in rw e (ground (arith, contains-keep u p us))
  | inr other ↦ ground (arith, other, contains-keep u p us)
]

-- The listed friends are the known users whose status is that of a friend.
pub list_friends_iff :
    (b : Book)
    → IsProper b
    → (me u : ℕ)
    → contains u (list_friends me b) ≡ (contains u b.users && is_friends (get_status me u b).status)
unfolding list_friends get_status
list_friends_iff b p me u =
    rw (contains-keep u (λ v. contains v (friend_ids me b.docs)) b.users)
      (elim (Bool-cases (me == u)) [
        | inl self ↦ let e : u ≡ me = ground arith in rw (self, e, never_own me b.docs p.0)
        | inr n ↦
            rw (n, contains-friend_ids me u b.docs p.0 n)
              (elim (Option-cases (find_between me u b.docs)) [
                | inl absent ↦ rw absent
                | inr (d, found) ↦ rw found (ground arith)
              ])
      ])
