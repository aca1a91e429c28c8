-- ===== src/Bomberman/Chains.antt =====
-- What an explosion of src/games/bomberman/bomberman.logic.ts keeps, by its parts, and why the chain
-- reaction ends.
use backend_htssclub.Base.{
  ℕ, zero, suc, ◌+◌, ◌≤◌, ◌<◌, ◌≡◌, refl, sym, ap, ◌∙◌, inl, inr, Bool, true, false, not, ◌&&◌,
  ◌||◌, Bool-cases, Option-cases, some, List, [], ◌∷◌, ◌++◌, ltb, ◌==◌, arith, length, keep, All,
}
use mathlib.Core.List.{Memᴰ}
use mathlib.Core.List.Memᴰ.{head, tail}
use backend_htssclub.Bomberman.{
  Tile, floor, wall, brick, Bomb, Run, Heading, right, left, down, up, toward, tile_at,
  is_detonated, find_chained, break_brick, add_flame, ray, blast, release, detonate, detonate_all,
  flame_ms,
}

abbrev pub with_flame : ℕ → ℕ → ℕ → Run → Run
with_flame now c r o = record o {
  state = record (o.state) {
    flames = o.state.flames ++ record { col = c; row = r; until = now + flame_ms } ∷ [];
  };
}

pub break_brick-bombs :
    (dice : ℕ → ℕ) (c r : ℕ) (o : Run) → (break_brick dice c r o).state.bombs ≡ o.state.bombs
unfolding break_brick
break_brick-bombs dice c r o = elim (Bool-cases (ltb (dice o.state.drawn) 42)) [
  | inl drops ↦ rw drops refl
  | inr nothing ↦ rw nothing refl
]

pub break_brick-detonated :
    (dice : ℕ → ℕ) (c r : ℕ) (o : Run) → (break_brick dice c r o).detonated ≡ o.detonated
unfolding break_brick
break_brick-detonated dice c r o = elim (Bool-cases (ltb (dice o.state.drawn) 42)) [
  | inl drops ↦ rw drops refl
  | inr nothing ↦ rw nothing refl
]

module _ (dice : ℕ → ℕ) (now : ℕ) (P : Run → Type 0) (chain : Bomb → Run → Run)
    (lights : (c r : ℕ) (o : Run) → P o → P (with_flame now c r o))
    (breaks : (c r : ℕ) (o : Run)
      → tile_at o.state.cols o.state.rows o.state.grid c r ≡ brick
      → P o
      → P (break_brick dice c r o))
    (chains : (i c r : ℕ) (b : Bomb) (o : Run)
      → find_chained i c r o.detonated o.state.bombs ≡ some b
      → P o
      → P (chain b o)) where
  keeps_flame : (b : Bomb) (c r : ℕ) (o : Run) → P o → P (add_flame dice now chain b c r o)
  unfolding add_flame
  keeps_flame b c r o p = elim (Option-cases (find_chained b.id c r o.detonated o.state.bombs)) [
    | inl absent ↦ rw absent (lights c r o p)
    | inr (d, found) ↦ rw found (chains b.id c r d (with_flame now c r o) found (lights c r o p))
  ]

  keeps_tile :
      (d : Heading) (b : Bomb) (c r : ℕ) (o next : Run) (t : Tile)
      → tile_at o.state.cols o.state.rows o.state.grid c r ≡ t
      → P o
      → P next
      → P (elim t [ wall ↦ o | brick ↦ break_brick dice c r o | floor ↦ next ])
  keeps_tile d b c r o next wall e p q = p
  keeps_tile d b c r o next brick e p q = breaks c r o e p
  keeps_tile d b c r o next floor e p q = q

  keeps_ray : (d : Heading) (b : Bomb) (n k : ℕ) (o : Run) → P o → P (ray dice now chain d b n k o)
  unfolding ray
  keeps_ray d b zero k o p = p
  keeps_ray d b (suc n) k o p = elim (Option-cases (toward d b.col b.row k)) [
    | inl absent ↦ rw (absent, ray) p
    | inr (cell, found) ↦
        let (c, r) = cell in
        rw (found, ray)
          (keeps_tile d b c r o _ (tile_at o.state.cols o.state.rows o.state.grid c r) refl p
            (keeps_ray d b n (suc k) (add_flame dice now chain b c r o) (keeps_flame b c r o p)))
  ]

  pub keeps_blast : (b : Bomb) (o : Run) → P o → P (blast dice now chain b o)
  unfolding blast
  keeps_blast b o p =
      let center = keeps_flame b b.col b.row o p in
      let east = keeps_ray right b b.flame 1 _ center in
      let west = keeps_ray left b b.flame 1 _ east in
      let south = keeps_ray down b b.flame 1 _ west in keeps_ray up b b.flame 1 _ south

-- How many of these bombs have not gone off.
abbrev pub waiting : List Bomb → List Bomb → ℕ
waiting bs done = length (keep (λ (b : Bomb). not (is_detonated b.id done)) bs)

pub is_detonated-snoc :
    (i : ℕ) (done : List Bomb) (b : Bomb)
    → is_detonated i (done ++ b ∷ []) ≡ is_detonated i done || b.id == i
unfolding is_detonated
is_detonated-snoc i [] b = ground arith
is_detonated-snoc i (d ∷ done) b = ground (arith, is_detonated-snoc i done b)

waiting-snoc : (bs done : List Bomb) (b : Bomb) → waiting bs (done ++ b ∷ []) ≤ waiting bs done
waiting-snoc [] done b = omega arith
waiting-snoc (c ∷ bs) done b = ground (arith, waiting-snoc bs done b, is_detonated-snoc c.id done b)

abbrev pub is_stored : Bomb → List Bomb → Bool
is_stored b [] = false
is_stored b (c ∷ bs) = c.id == b.id || is_stored b bs

-- A stored bomb that goes off waits no longer.
pub waiting-release :
    (bs done : List Bomb) (b : Bomb)
    → is_stored b bs ≡ true
    → is_detonated b.id done ≡ false
    → waiting bs (done ++ b ∷ []) < waiting bs done
waiting-release [] done b h f = ground arith
waiting-release (c ∷ bs) done b h f = elim (Bool-cases (c.id == b.id)) [
  | inl here ↦
      let e : c.id ≡ b.id = ground arith in
      let f' : is_detonated c.id done ≡ false = rw e f in
      ground (arith, waiting-snoc bs done b, is_detonated-snoc c.id done b, f', here)
  | inr there ↦
      ground (arith, there, h, waiting-release bs done b, f, is_detonated-snoc c.id done b)
]

pub chained_waits :
    (i c r : ℕ) (done bs : List Bomb) (b : Bomb) → find_chained i c r done bs ≡ some b → Memᴰ b bs
unfolding find_chained
chained_waits i c r done [] b h = absurd (ground (arith, h))
chained_waits i c r done (d ∷ bs) b h =
    elim (Bool-cases
      (((not (d.id == i) && d.col == c) && d.row == r) && not (is_detonated d.id done))) [
        | inl here ↦
            let g : some d ≡ some b = rw here at h in let same : d ≡ b = cc in head (sym same)
        | inr there ↦
            let g : find_chained i c r done bs ≡ some b = rw there at h in
            tail (chained_waits i c r done bs b g)
      ]

pub stored_mem : (b : Bomb) (bs : List Bomb) → Memᴰ b bs → is_stored b bs ≡ true
stored_mem b [] m = elim m [ ]
stored_mem b (c ∷ bs) (head e) =
    let same : b.id ≡ c.id = ap (λ (d : Bomb). d.id) e in ground (arith, same)
stored_mem b (c ∷ bs) (tail m) = ground (arith, stored_mem b bs m)

-- What every flame, every broken brick and every bomb that goes off keeps, an explosion keeps.
module _ (dice : ℕ → ℕ) (now : ℕ) (bs : List Bomb) (P : Run → Type 0)
    (starves : (o : Run) → P o → P (record o { starved = true }))
    (lights : (c r : ℕ) (o : Run) → P o → P (with_flame now c r o))
    (breaks : (c r : ℕ) (o : Run)
      → tile_at o.state.cols o.state.rows o.state.grid c r ≡ brick
      → P o
      → P (break_brick dice c r o))
    (releases : (b : Bomb) (o : Run)
      → o.state.bombs ≡ bs
      → Memᴰ b bs
      → is_detonated b.id o.detonated ≡ false
      → P o
      → P (release b o)) where
  abbrev Holds : Run → Type 0
  Holds o = (o.state.bombs ≡ bs) × P o

  breaks_stored :
      (c r : ℕ) (o : Run)
      → tile_at o.state.cols o.state.rows o.state.grid c r ≡ brick
      → Holds o
      → Holds (break_brick dice c r o)
  breaks_stored c r o e p = (break_brick-bombs dice c r o ∙ p.0, breaks c r o e p.1)

  pub keeps_detonate :
      (n : ℕ) (b : Bomb) (o : Run) → Memᴰ b bs → Holds o → Holds (detonate dice now n b o)
  unfolding detonate release
  keeps_detonate zero b o h p = (p.0, starves o p.1)
  keeps_detonate (suc n) b o h p = elim (Bool-cases (is_detonated b.id o.detonated)) [
    | inl gone ↦ rw (gone, detonate) p
    | inr here ↦
        rw (here, detonate)
          (keeps_blast dice now Holds (detonate dice now n) (λ c r t u. (u.0, lights c r t u.1))
            breaks_stored
            (λ i c r d t found u.
              keeps_detonate n d t
                (rw (sym u.0) (chained_waits i c r t.detonated t.state.bombs d found)) u)
            b (release b o) (p.0, releases b o p.0 h here p.1))
  ]

  pub keeps_detonate_all :
      (n : ℕ) (ds : List Bomb) (o : Run)
      → All (λ d. Memᴰ d bs) ds
      → (o.state.bombs ≡ bs) × P o
      → ((detonate_all dice now n ds o).state.bombs ≡ bs) × P (detonate_all dice now n ds o)
  unfolding detonate_all
  keeps_detonate_all n [] o h p = p
  keeps_detonate_all n (d ∷ ds) o h p =
      keeps_detonate_all n ds (detonate dice now n d o) h.1 (keeps_detonate n d o h.0 p)
