-- ===== src/Servers/Listing.antt =====
-- The queries of src/servers/servers.service.ts that the clients read.
use backend_htssclub.Base.{
  ℕ, Option, none, some, List, [], ◌∷◌, ◌==◌, map, keep, contains, reverse, ◌≡◌, refl, ap, inl, inr,
  Bool-cases, arith,
}
use backend_htssclub.Common.Enums.{MemberRole, admin}
use backend_htssclub.Common.Action.{
  Action, ok, pure, or_throw, gets, ◌>>=◌, not_found, server_not_found,
}
use backend_htssclub.Servers.{
  Text, Server, ServerMember, ServerBan, Registry, find_server, get_membership, is_some,
  require_membership, require_role,
}

abbrev role_in : Option ServerMember → Option MemberRole
role_in none = none
role_in (some m) = some m.role

abbrev with_role : ℕ → List ServerMember → Server → Server × Option MemberRole
with_role u ms d = (d, role_in (get_membership d.id u ms))

-- `listForUser`: the servers of the memberships, with the role.
unfoldable pub list_for_user : ℕ → Action Registry (List (Server × Option MemberRole))
list_for_user u = do
  memberships ← gets (λ r. keep (λ (m : ServerMember). m.user_id == u) r.members)
  let ids = map (λ (m : ServerMember). m.server_id) memberships
  servers ← gets (λ r. keep (λ (d : Server). contains d.id ids) r.servers)
  pure (map (with_role u memberships) servers)

-- `listServerIdsForUser`
unfoldable pub list_server_ids : ℕ → Action Registry (List ℕ)
list_server_ids u = do
  memberships ← gets (λ r. keep (λ (m : ServerMember). m.user_id == u) r.members)
  pure (map (λ (m : ServerMember). m.server_id) memberships)

-- `C` is what `toPublic` tells of a user.
pub record MemberRow (C : Type 0) : Type 0 where
  pub user_id : ℕ
  pub role : MemberRole
  pub nickname : Option Text
  pub user : Option C

pub record BanRow (C : Type 0) : Type 0 where
  pub user_id : ℕ
  pub reason : Option Text
  pub banned_by : ℕ
  pub user : Option C

-- `card` stands for the users' collection.
module _ {C : Type 0} (card : ℕ → Option C) where
  -- `listMembers`
  unfoldable pub list_members : ℕ → ℕ → Action Registry (List (MemberRow C))
  list_members s u = do
    _ ← require_membership s u
    members ← gets (λ r. keep (λ (m : ServerMember). m.server_id == s) r.members)
    pure (
        map
          (λ (m : ServerMember). record {
            user_id = m.user_id;
            role = m.role;
            nickname = m.nickname;
            user = card m.user_id;
          })
          members)

  -- `getDetail`
  unfoldable pub get_detail : ℕ → ℕ → Action Registry (Server × List (MemberRow C))
  get_detail s u = do
    _ ← require_membership s u
    found ← gets (λ r. find_server s r.servers)
    d ← or_throw found (not_found server_not_found)
    members ← list_members s u
    pure (d, members)

  -- `listBans`, the newest first.
  unfoldable pub list_bans : ℕ → ℕ → Action Registry (List (BanRow C))
  list_bans s a = do
    _ ← require_role s a admin
    bans ← gets (λ r. reverse (keep (λ (b : ServerBan). b.server_id == s) r.bans))
    pure (
        map
          (λ (b : ServerBan). record {
            user_id = b.user_id;
            reason = b.reason;
            banned_by = b.banned_by;
            user = card b.user_id;
          })
          bans)

membership_keep :
    (s u : ℕ) (ms : List ServerMember)
    → get_membership s u (keep (λ (m : ServerMember). m.user_id == u) ms) ≡ get_membership s u ms
unfolding get_membership
membership_keep s u [] = refl
membership_keep s u (m ∷ ms) = ground (arith, membership_keep s u ms)

contains-keep :
    (s u : ℕ) (ms : List ServerMember)
    → contains s
        (map (λ (m : ServerMember). m.server_id) (keep (λ (m : ServerMember). m.user_id == u) ms))
      ≡ is_some (get_membership s u ms)
unfolding get_membership
contains-keep s u [] = refl
contains-keep s u (m ∷ ms) = ground (arith, contains-keep s u ms)

joined :
    (u : ℕ) (ms : List ServerMember) (ds : List Server)
    → let mine = keep (λ (m : ServerMember). m.user_id == u) ms in
      map
        (with_role u mine)
        (keep (λ (d : Server). contains d.id (map (λ (m : ServerMember). m.server_id) mine)) ds)
      ≡ map (with_role u ms) (keep (λ (d : Server). is_some (get_membership d.id u ms)) ds)
joined u ms [] = refl
joined u ms (d ∷ ds) = elim (Bool-cases (is_some (get_membership d.id u ms))) [
  | inl yes_d ↦ rw (contains-keep d.id u ms, yes_d, membership_keep d.id u ms, joined u ms ds)
  | inr no_d ↦ rw (contains-keep d.id u ms, no_d, joined u ms ds)
]

-- The two queries that `listForUser` joins give each server of which the user is a member, in the
-- stored order, with the role of the user in it, and nothing else.
pub list_for_user_lem :
    (u : ℕ) (r : Registry)
    → list_for_user u r ≡ (
      ok (
          map
            (with_role u r.members)
            (keep (λ (d : Server). is_some (get_membership d.id u r.members)) r.servers)),
      r,
    )
unfolding list_for_user ◌>>=◌
list_for_user_lem u r = ap (λ rows. (ok rows, r)) (joined u r.members r.servers)
