-- ===== src/Servers/Rows.antt =====
-- What the look-ups in the collections of src/servers/servers.service.ts find after an update.
use backend_htssclub.Base.{
  ℕ, ◌≡◌, refl, inl, inr, true, false, ◌&&◌, ◌||◌, Bool-cases, Option, none, some, List, [], ◌∷◌,
  ◌++◌, ◌==◌, if◌then◌else◌, arith,
}
use backend_htssclub.Servers.{
  Server, ServerMember, ServerBan, find_server, get_membership, is_membership, is_banned, is_some,
  change_server, change_member, delete_server, delete_member, delete_ban, clear_members, clear_bans,
}
use backend_htssclub.Servers.Life.{find_invited, has_code, find_default}
use backend_htssclub.Servers.Admin.{upsert_ban}

abbrev pub over : {A : Type 0} → (A → A) → Option A → Option A
over f none = none
over f (some a) = some (f a)

abbrev pub or_else : {A : Type 0} → Option A → Option A → Option A
or_else none o = o
or_else (some a) o = some a

pub get_membership-snoc :
    (s u : ℕ) (m : ServerMember) (ms : List ServerMember)
    → get_membership s u (ms ++ m ∷ [])
      ≡ or_else (get_membership s u ms) (if is_membership s u m then some m else none)
unfolding get_membership
get_membership-snoc s u m [] = refl
get_membership-snoc s u m (c ∷ ms) = elim (Bool-cases (is_membership s u c)) [
  | inl here ↦ rw here
  | inr there ↦ rw (there, get_membership-snoc s u m ms)
]

pub get_membership-delete :
    (s u t v : ℕ) (ms : List ServerMember)
    → get_membership s u (delete_member t v ms)
      ≡ (if t == s && v == u then none else get_membership s u ms)
unfolding get_membership delete_member
get_membership-delete s u t v [] = ground arith
get_membership-delete s u t v (c ∷ ms) = ground (arith, get_membership-delete s u t v ms)

pub get_membership-clear :
    (s u t : ℕ) (ms : List ServerMember)
    → get_membership s u (clear_members t ms) ≡ (if t == s then none else get_membership s u ms)
unfolding get_membership clear_members
get_membership-clear s u t [] = ground arith
get_membership-clear s u t (c ∷ ms) = ground (arith, get_membership-clear s u t ms)

-- For an update that keeps the key.
pub get_membership-change :
    (s u t v : ℕ) (f : ServerMember → ServerMember) (ms : List ServerMember)
    → ((m : ServerMember) → is_membership s u (f m) ≡ is_membership s u m)
    → get_membership s u (change_member t v f ms)
      ≡ (if t == s && v == u then over f (get_membership s u ms) else get_membership s u ms)
unfolding get_membership change_member
get_membership-change s u t v f [] k = ground arith
get_membership-change s u t v f (c ∷ ms) k =
    ground (arith, k c, get_membership-change s u t v f ms k)

pub find_server-snoc :
    (s : ℕ) (d : Server) (ds : List Server)
    → find_server s (ds ++ d ∷ []) ≡ or_else (find_server s ds) (if d.id == s then some d else none)
unfolding find_server
find_server-snoc s d [] = refl
find_server-snoc s d (c ∷ ds) = elim (Bool-cases (c.id == s)) [
  | inl here ↦ rw here
  | inr there ↦ rw (there, find_server-snoc s d ds)
]

pub find_server-delete :
    (s t : ℕ) (ds : List Server)
    → find_server s (delete_server t ds) ≡ (if t == s then none else find_server s ds)
unfolding find_server delete_server
find_server-delete s t [] = ground arith
find_server-delete s t (c ∷ ds) = ground (arith, find_server-delete s t ds)

pub find_server-change :
    (s t : ℕ) (f : Server → Server) (ds : List Server)
    → ((d : Server) → (f d).id ≡ d.id)
    → find_server s (change_server t f ds)
      ≡ (if t == s then over f (find_server s ds) else find_server s ds)
unfolding find_server change_server
find_server-change s t f [] k = ground arith
find_server-change s t f (c ∷ ds) k = ground (arith, k c, find_server-change s t f ds k)

pub is_banned-delete :
    (s u t v : ℕ) (bs : List ServerBan)
    → is_banned s u (delete_ban t v bs) ≡ (if t == s && v == u then false else is_banned s u bs)
unfolding is_banned delete_ban
is_banned-delete s u t v [] = ground arith
is_banned-delete s u t v (c ∷ bs) = ground (arith, is_banned-delete s u t v bs)

pub is_banned-clear :
    (s u t : ℕ) (bs : List ServerBan)
    → is_banned s u (clear_bans t bs) ≡ (if t == s then false else is_banned s u bs)
unfolding is_banned clear_bans
is_banned-clear s u t [] = ground arith
is_banned-clear s u t (c ∷ bs) = ground (arith, is_banned-clear s u t bs)

pub is_banned-upsert :
    (s u : ℕ) (b : ServerBan) (bs : List ServerBan)
    → is_banned s u (upsert_ban b bs) ≡ (b.server_id == s && b.user_id == u) || is_banned s u bs
unfolding is_banned upsert_ban
is_banned-upsert s u b [] = refl
is_banned-upsert s u b (c ∷ bs) = ground (arith, is_banned-upsert s u b bs)

-- The server of an invitation is stored.
pub find_server-invited :
    (code : ℕ) (ds : List Server) (d : Server)
    → find_invited code ds ≡ some d
    → is_some (find_server d.id ds) ≡ true
unfolding find_server find_invited
find_server-invited code [] d h = ground arith
find_server-invited code (c ∷ ds) d h = elim (Bool-cases (has_code code c.invite_code)) [
  | inl here ↦
      let g : some c ≡ some d = rw here at h in let same : c ≡ d = cc in rw (← same) (ground arith)
  | inr there ↦
      let g : find_invited code ds ≡ some d = rw there at h in
      ground (arith, find_server-invited code ds d g)
]

pub find_server-id : (s : ℕ) (ds : List Server) (d : Server) → find_server s ds ≡ some d → d.id ≡ s
unfolding find_server
find_server-id s [] d h = ground arith
find_server-id s (c ∷ ds) d h = ground (arith, h, find_server-id s ds d)

pub find_server-default :
    (ds : List Server) (d : Server)
    → find_default ds ≡ some d
    → is_some (find_server d.id ds) ≡ true
unfolding find_server find_default
find_server-default [] d h = ground arith
find_server-default (c ∷ ds) d h = ground (arith, h, find_server-default ds d)
