-- ===== src/Matchmaking.antt =====
-- src/games/caro/caro-matchmaking.service.ts: the queue of players, and who meets whom.
pub mod Unique
pub mod Nearest
pub mod Tables
mod Tests
use backend_htssclub.Base.{
  ℕ, ◌+◌, ◌-◌, Bool, true, false, not, ◌&&◌, ◌||◌, Option, none, some, List, [], ◌∷◌, ltb, leb,
  ◌==◌, if◌then◌else◌, length,
}

-- A member of the sorted set `caro:queue`, with its score.
pub record Entry : Type 0 where
  pub user_id : ℕ
  pub rp : ℕ

-- The sorted set, by ascending score, and the hash `caro:queue:meta` from users to sockets.
pub record Queue : Type 0 where
  pub entries : List Entry
  pub meta : List (ℕ × ℕ)

pub record QueuedPlayer : Type 0 where
  pub user_id : ℕ
  pub rp : ℕ
  pub socket_id : Option ℕ

-- `ZREM`, `ZSCORE`, `HDEL` and `HGET`
unfoldable pub drop_entry : ℕ → List Entry → List Entry
drop_entry u [] = []
drop_entry u (e ∷ es) = let rest = drop_entry u es in if e.user_id == u then rest else e ∷ rest

unfoldable pub score : ℕ → List Entry → Option ℕ
score u [] = none
score u (e ∷ es) = if e.user_id == u then some e.rp else score u es

unfoldable pub drop_meta : ℕ → List (ℕ × ℕ) → List (ℕ × ℕ)
drop_meta u [] = []
drop_meta u ((v, socket) ∷ ms) =
    let rest = drop_meta u ms in if v == u then rest else (v, socket) ∷ rest

unfoldable pub socket_of : ℕ → List (ℕ × ℕ) → Option ℕ
socket_of u [] = none
socket_of u ((v, socket) ∷ ms) = if v == u then some socket else socket_of u ms

-- By score, then by member.
unfoldable pub insert_entry : Entry → List Entry → List Entry
insert_entry e [] = e ∷ []
insert_entry e (f ∷ es) =
    if ltb e.rp f.rp || (e.rp == f.rp && leb e.user_id f.user_id)
    then e ∷ f ∷ es
    else f ∷ insert_entry e es

unfoldable pub enqueue : ℕ → ℕ → ℕ → Queue → Queue
enqueue u rp socket q = record {
  entries = insert_entry (record { user_id = u; rp = rp }) (drop_entry u q.entries);
  meta = (u, socket) ∷ drop_meta u q.meta;
}

unfoldable pub dequeue : ℕ → Queue → Queue
dequeue u q = record { entries = drop_entry u q.entries; meta = drop_meta u q.meta }

abbrev pub is_scored : Option ℕ → Bool
is_scored none = false
is_scored (some s) = true

unfoldable pub is_queued : ℕ → Queue → Bool
is_queued u q = is_scored (score u q.entries)

unfoldable pub size : Queue → ℕ
size q = length q.entries

abbrev pub dist : ℕ → ℕ → ℕ
dist a b = (a - b) + (b - a)

-- The nearer of a candidate and the best one so far, which stays on a tie.
unfoldable pub nearer : ℕ → Entry → Option Entry → Entry
nearer rp c none = c
nearer rp c (some best) = if ltb (dist c.rp rp) (dist best.rp rp) then c else best

-- The loop of `tryMatch`.
unfoldable pub nearest : ℕ → ℕ → List Entry → Option Entry → Option Entry
nearest u rp [] best = best
nearest u rp (c ∷ cs) best =
    if c.user_id == u then nearest u rp cs best else nearest u rp cs (some (nearer rp c best))

-- The script that claims both players, or none.
unfoldable pub claim : ℕ → ℕ → Queue → Bool × Queue
claim a b q =
    if is_scored (score a q.entries) && is_scored (score b q.entries)
    then (true, record q { entries = drop_entry b (drop_entry a q.entries) })
    else (false, q)

unfoldable pub settle_claim : ℕ → Entry → Bool × Queue → Option QueuedPlayer × Queue
settle_claim u best (false, q) = (none, q)
settle_claim u best (true, q) = (
  some (record { user_id = best.user_id; rp = best.rp; socket_id = socket_of best.user_id q.meta }),
  record q { meta = drop_meta best.user_id (drop_meta u q.meta) },
)

unfoldable pub match_best : ℕ → Option Entry → Queue → Option QueuedPlayer × Queue
match_best u none q = (none, q)
match_best u (some best) q = settle_claim u best (claim u best.user_id q)

unfoldable pub match_score : ℕ → Option ℕ → Queue → Option QueuedPlayer × Queue
match_score u none q = (none, q)
match_score u (some rp) q = match_best u (nearest u rp q.entries none) q

-- `tryMatch`
unfoldable pub try_match : ℕ → Queue → Option QueuedPlayer × Queue
try_match u q = match_score u (score u q.entries) q
