-- ===== src/Matchmaking/Tables.antt =====
-- src/games/tienlen/tienlen-matchmaking.service.ts: one queue for each size of a table, and how
-- src/games/tienlen/tienlen.gateway.ts joins one.
use backend_htssclub.Base.{
  ℕ, ◌<◌, ◌≡◌, refl, Bool, true, false, ◌||◌, Option, none, some, List, [], ◌∷◌, map, ltb, ◌==◌,
  if◌then◌else◌, arith, length, take,
}
use backend_htssclub.Matchmaking.{Entry, drop_entry, insert_entry, score, is_scored, drop_meta}

-- The sorted sets, with the time of joining as the score, and the hashes, by size.
pub record Tables : Type 0 where
  pub queues : ℕ → List Entry
  pub metas : ℕ → List (ℕ × ℕ)

abbrev pub put : {A : Type 0} → ℕ → A → (ℕ → A) → ℕ → A
put size a f n = if n == size then a else f n

unfoldable pub enqueue_at : ℕ → ℕ → ℕ → ℕ → Tables → Tables
enqueue_at size u now socket t = record {
  queues =
      put size (insert_entry (record { user_id = u; rp = now }) (drop_entry u (t.queues size)))
        t.queues;
  metas = put size ((u, socket) ∷ drop_meta u (t.metas size)) t.metas;
}

abbrev pub is_size : ℕ → Bool
is_size n = n == 2 || (n == 3 || n == 4)

-- `dequeue`, from every size.
unfoldable pub dequeue_all : ℕ → Tables → Tables
dequeue_all u t = record {
  queues = λ n. if is_size n then drop_entry u (t.queues n) else t.queues n;
  metas = λ n. if is_size n then drop_meta u (t.metas n) else t.metas n;
}

unfoldable pub is_queued_at_any : ℕ → Tables → Bool
is_queued_at_any u t =
    is_scored (score u (t.queues 2))
    || (is_scored (score u (t.queues 3)) || is_scored (score u (t.queues 4)))

unfoldable pub count_at : ℕ → Tables → ℕ
count_at size t = length (t.queues size)

unfoldable pub drop_entries : List ℕ → List Entry → List Entry
drop_entries [] es = es
drop_entries (u ∷ us) es = drop_entries us (drop_entry u es)

unfoldable pub drop_metas : List ℕ → List (ℕ × ℕ) → List (ℕ × ℕ)
drop_metas [] ms = ms
drop_metas (u ∷ us) ms = drop_metas us (drop_meta u ms)

-- The script that claims the oldest players.
unfoldable pub oldest : ℕ → List Entry → List ℕ
oldest size es = map (λ e. e.user_id) (take size es)

unfoldable pub take_table : ℕ → List ℕ → Tables → Tables
take_table size claimed t = record {
  queues = put size (drop_entries claimed (t.queues size)) t.queues;
  metas = put size (drop_metas claimed (t.metas size)) t.metas;
}

-- `tryMatch`
unfoldable pub try_table : ℕ → Tables → Option (List ℕ) × Tables
try_table size t =
    if ltb (length (t.queues size)) size
    then (none, t)
    else (some (oldest size (t.queues size)), take_table size (oldest size (t.queues size)) t)

-- `onQueueJoin`, up to the creation of the game.
unfoldable pub join_queue : ℕ → ℕ → ℕ → ℕ → Tables → Option (List ℕ) × Tables
join_queue size u now socket t =
    let chosen : ℕ = if is_size size then size else 4 in
    try_table chosen (enqueue_at chosen u now socket t)

-- A player who waits alone for a table of three and then joins the one player who waits for a table
-- of two is seated there, and still waits for the table of three.
pub seated_and_still_waiting :
    (t : Tables) (u now later socket : ℕ) (v : Entry)
    → t.queues 3 ≡ []
    → t.queues 2 ≡ v ∷ []
    → (v.user_id == u) ≡ false
    → v.rp < later
    → let (_, t₁) = join_queue 3 u now socket t in
      let (claimed, t₂) = join_queue 2 u later socket t₁ in
      (claimed ≡ some (v.user_id ∷ u ∷ [])) × (is_scored (score u (t₂.queues 3)) ≡ true)
unfolding join_queue try_table enqueue_at take_table oldest insert_entry drop_entry score
seated_and_still_waiting t u now later socket v threes twos other older =
    let self : (u == u) ≡ true = ground arith in
    let newer : ltb later v.rp ≡ false = ground (arith, older) in
    let apart : (later == v.rp) ≡ false = ground (arith, older) in
    rw (threes, twos, other, newer, apart, self) (refl, refl)
