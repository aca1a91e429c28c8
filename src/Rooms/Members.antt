-- ===== src/Rooms/Members.antt =====
-- The list of members under the changes that the lobby makes, and the stakes in it.
use backend_htssclub.Base.{
  ℕ, ◌+◌, ◌≡◌, refl, ◌∙◌, inl, inr, true, false, ◌||◌, Bool, Bool-cases, List, [], ◌∷◌, ◌++◌, arith,
  if◌then◌else◌, ◌==◌,
}
use backend_htssclub.Wallet.{User}
use backend_htssclub.Wager.Effects.{is_known, AllKnown, owed}
use backend_htssclub.Rooms.{Member, has_member, staked_users, is_staked, pull, mark_ready}
use backend_htssclub.Rooms.Held.{OnceEach}

has_member-snoc :
    (u : ℕ) (ms : List Member) (m : Member)
    → has_member u (ms ++ m ∷ []) ≡ (has_member u ms || m.user_id == u)
unfolding has_member
has_member-snoc u [] m = ground arith
has_member-snoc u (n ∷ ms) m = ground (arith, has_member-snoc u ms m)

module _ (bet : ℕ) where
  pub owed-snoc :
      (ms : List Member) (m : Member)
      → owed bet (staked_users (ms ++ m ∷ []))
        ≡ owed bet (staked_users ms) + (if m.staked then bet else 0)
  unfolding staked_users
  owed-snoc [] m = ground arith
  owed-snoc (n ∷ ms) m = ground (arith, owed-snoc ms m)

  pub pull-absent : (u : ℕ) (ms : List Member) → has_member u ms ≡ false → pull u ms ≡ ms
  unfolding pull has_member
  pull-absent u [] h = refl
  pull-absent u (m ∷ ms) h = ground (arith, pull-absent u ms)

  pub owed-pull :
      (u : ℕ) (ms : List Member)
      → OnceEach ms
      → owed bet (staked_users (pull u ms)) + (if is_staked u ms then bet else 0)
        ≡ owed bet (staked_users ms)
  unfolding staked_users pull is_staked
  owed-pull u [] o = ground arith
  owed-pull u (m ∷ ms) o = elim (Bool-cases (m.user_id == u)) [
    | inl yes_m ↦
        let e : m.user_id ≡ u = ground arith in
        let absent : has_member u ms ≡ false = rw (← e) o.0 in
        rw (yes_m, pull-absent u ms absent) (ground arith)
    | inr no_m ↦ ground (arith, no_m, owed-pull u ms o.1)
  ]

module _ (us : List User) where
  pub AllKnown-snoc :
      (ms : List Member) (m : Member)
      → AllKnown us (staked_users ms)
      → (m.staked ≡ true → is_known m.user_id us ≡ true)
      → AllKnown us (staked_users (ms ++ m ∷ []))
  unfolding staked_users
  AllKnown-snoc [] m k h = ground (arith, h)
  AllKnown-snoc (n ∷ ms) m k h = ground (arith, AllKnown-snoc ms m, h)

  pub AllKnown-pull :
      (u : ℕ) (ms : List Member)
      → AllKnown us (staked_users ms)
      → AllKnown us (staked_users (pull u ms))
  unfolding staked_users pull
  AllKnown-pull u [] k = tt
  AllKnown-pull u (m ∷ ms) k = ground (arith, AllKnown-pull u ms)

  pub is_staked-known :
      (u : ℕ) (ms : List Member)
      → AllKnown us (staked_users ms)
      → is_staked u ms ≡ true
      → is_known u us ≡ true
  unfolding staked_users is_staked
  is_staked-known u [] k h = ground arith
  is_staked-known u (m ∷ ms) k h = ground (arith, is_staked-known u ms)

pub OnceEach-snoc :
    (ms : List Member) (m : Member)
    → OnceEach ms
    → has_member m.user_id ms ≡ false
    → OnceEach (ms ++ m ∷ [])
unfolding has_member
OnceEach-snoc [] m o h = (refl, tt)
OnceEach-snoc (n ∷ ms) m o h =
    (rw (has_member-snoc n.user_id ms m) (ground arith), OnceEach-snoc ms m o.1 (ground arith))

has_member-pull :
    (v u : ℕ) (ms : List Member) → has_member v ms ≡ false → has_member v (pull u ms) ≡ false
unfolding has_member pull
has_member-pull v u [] h = refl
has_member-pull v u (m ∷ ms) h = ground (arith, has_member-pull v u ms)

pub OnceEach-pull : (u : ℕ) (ms : List Member) → OnceEach ms → OnceEach (pull u ms)
unfolding pull has_member
OnceEach-pull u [] o = tt
OnceEach-pull u (m ∷ ms) o = elim (Bool-cases (m.user_id == u)) [
  | inl yes_m ↦ rw yes_m (OnceEach-pull u ms o.1)
  | inr no_m ↦ rw no_m (has_member-pull m.user_id u ms o.0, OnceEach-pull u ms o.1)
]

module _ (u : ℕ) (flag : Bool) where
  pub staked-mark : (ms : List Member) → staked_users (mark_ready u flag ms) ≡ staked_users ms
  unfolding staked_users mark_ready
  staked-mark [] = refl
  staked-mark (m ∷ ms) = ground (arith, staked-mark ms)

  has_member-mark :
      (v : ℕ) (ms : List Member) → has_member v (mark_ready u flag ms) ≡ has_member v ms
  unfolding has_member mark_ready
  has_member-mark v [] = refl
  has_member-mark v (m ∷ ms) = ground (arith, has_member-mark v ms)

  pub OnceEach-mark : (ms : List Member) → OnceEach ms → OnceEach (mark_ready u flag ms)
  unfolding mark_ready
  OnceEach-mark [] o = tt
  OnceEach-mark (m ∷ ms) o = elim (Bool-cases (m.user_id == u)) [
    | inl yes_m ↦ rw yes_m o
    | inr no_m ↦ rw no_m (has_member-mark m.user_id ms ∙ o.0, OnceEach-mark ms o.1)
  ]

pub staked-pull_nil :
    (u : ℕ) (ms : List Member) → staked_users ms ≡ [] → staked_users (pull u ms) ≡ []
unfolding staked_users pull
staked-pull_nil u [] h = refl
staked-pull_nil u (m ∷ ms) h = ground (arith, staked-pull_nil u ms)

pub staked-snoc_nil :
    (ms : List Member) (m : Member)
    → staked_users ms ≡ []
    → m.staked ≡ false
    → staked_users (ms ++ m ∷ []) ≡ []
unfolding staked_users
staked-snoc_nil [] m h f = ground arith
staked-snoc_nil (n ∷ ms) m h f = ground (arith, staked-snoc_nil ms m)
