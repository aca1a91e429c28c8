-- ===== src/Servers.antt =====
-- src/servers/servers.service.ts and its schemas: communities, their members, roles and bans.
-- This file has the stored documents, the queries and the checks of the roles; the operations are
-- in Servers/Life and Servers/Admin.
pub mod Life
pub mod Admin
pub mod Requests
pub mod Changes
mod Rows
pub mod Sound
pub mod Owners
pub mod Shield
pub mod Barred
pub mod Invites
pub mod Roles
pub mod Listing
pub mod Default
mod Tests
use backend_htssclub.Base.{
  ℕ, suc, ◌≡◌, Bool, true, false, not, ◌&&◌, ◌||◌, Option, none, some, List, [], ◌∷◌, ◌++◌, ltb,
  ◌==◌, if◌then◌else◌,
}
use backend_htssclub.Common.Enums.{MemberRole, owner, admin, member}
use backend_htssclub.Common.Action.{
  Action, pure, throw_if, or_throw, gets, modify, ◌>>=◌, ◌>>◌, forbidden, not_found, duplicate_key,
  not_a_member, insufficient_role, server_not_found,
}

-- A string, as the numbers of its characters.
abbrev pub Text : Type 0
Text = List ℕ

-- A document of the collection `servers`. An invite code stands as a number.
pub record Server : Type 0 where
  pub id : ℕ
  pub name : Text
  pub icon_url : Option Text
  pub owner_id : ℕ
  pub invite_code : Option ℕ
  pub is_default : Bool

-- `server_members`; the unique index makes the server and the user a key.
pub record ServerMember : Type 0 where
  pub server_id : ℕ
  pub user_id : ℕ
  pub role : MemberRole
  pub nickname : Option Text

-- `server_bans`, with such an index too.
pub record ServerBan : Type 0 where
  pub server_id : ℕ
  pub user_id : ℕ
  pub banned_by : ℕ
  pub reason : Option Text

-- What is sent to the members of a server, named first, or to the user who was banned.
pub data ServerEvent : Type 0 where
  member_joined : ℕ → ℕ → MemberRole → ServerEvent
  member_left : ℕ → ℕ → ServerEvent
  server_updated server_deleted : ℕ → ServerEvent
  role_updated : ℕ → ℕ → MemberRole → ServerEvent
  nickname_updated : ℕ → ℕ → Option Text → ServerEvent
  ownership_transferred : ℕ → ℕ → ℕ → ServerEvent
  member_banned you_were_banned : ℕ → ℕ → Option Text → ServerEvent
  announcement : ℕ → ℕ → Text → ServerEvent

-- The collections, the service's own `defaultServerId`, and the identifier of the next server.
pub record Registry : Type 0 where
  pub servers : List Server
  pub members : List ServerMember
  pub bans : List ServerBan
  pub default_server_id : Option ℕ
  pub sent : List ServerEvent
  pub next_id : ℕ

-- `ROLE_RANK`
abbrev pub role_rank : MemberRole → ℕ
role_rank owner = 3
role_rank admin = 2
role_rank member = 1

abbrev pub is_owner : MemberRole → Bool
is_owner owner = true
is_owner _ = false

-- `findById`
unfoldable pub find_server : ℕ → List Server → Option Server
find_server s [] = none
find_server s (d ∷ ds) = if d.id == s then some d else find_server s ds

abbrev pub is_membership : ℕ → ℕ → ServerMember → Bool
is_membership s u m = m.server_id == s && m.user_id == u

-- `getMembership`
unfoldable pub get_membership : ℕ → ℕ → List ServerMember → Option ServerMember
get_membership s u [] = none
get_membership s u (m ∷ ms) = if is_membership s u m then some m else get_membership s u ms

unfoldable pub is_banned : ℕ → ℕ → List ServerBan → Bool
is_banned s u [] = false
is_banned s u (b ∷ bs) = (b.server_id == s && b.user_id == u) || is_banned s u bs

-- An update of the document with an id, and of the one of a server and a user.
unfoldable pub change_server : ℕ → (Server → Server) → List Server → List Server
change_server s f [] = []
change_server s f (d ∷ ds) =
    let rest = change_server s f ds in if d.id == s then f d ∷ rest else d ∷ rest

unfoldable pub change_member :
    ℕ → ℕ → (ServerMember → ServerMember) → List ServerMember → List ServerMember
change_member s u f [] = []
change_member s u f (m ∷ ms) =
    let rest = change_member s u f ms in if is_membership s u m then f m ∷ rest else m ∷ rest

unfoldable pub delete_server : ℕ → List Server → List Server
delete_server s [] = []
delete_server s (d ∷ ds) = let rest = delete_server s ds in if d.id == s then rest else d ∷ rest

unfoldable pub delete_member : ℕ → ℕ → List ServerMember → List ServerMember
delete_member s u [] = []
delete_member s u (m ∷ ms) =
    let rest = delete_member s u ms in if is_membership s u m then rest else m ∷ rest

unfoldable pub delete_ban : ℕ → ℕ → List ServerBan → List ServerBan
delete_ban s u [] = []
delete_ban s u (b ∷ bs) =
    let rest = delete_ban s u bs in if b.server_id == s && b.user_id == u then rest else b ∷ rest

-- `deleteMany({ serverId })`
unfoldable pub clear_members : ℕ → List ServerMember → List ServerMember
clear_members s [] = []
clear_members s (m ∷ ms) =
    let rest = clear_members s ms in if m.server_id == s then rest else m ∷ rest

unfoldable pub clear_bans : ℕ → List ServerBan → List ServerBan
clear_bans s [] = []
clear_bans s (b ∷ bs) = let rest = clear_bans s bs in if b.server_id == s then rest else b ∷ rest

abbrev pub is_some : {A : Type 0} → Option A → Bool
is_some none = false
is_some (some a) = true

-- `memberModel.create`, which the unique index refuses for a member.
unfoldable pub create_member : ℕ → ℕ → MemberRole → Action Registry ServerMember
create_member s u role = do
  found ← gets (λ r. get_membership s u r.members)
  throw_if (is_some found) duplicate_key
  modify (λ r. record r {
    members = r.members ++ record { server_id = s; user_id = u; role = role; nickname = none } ∷ [];
  })
  pure (record { server_id = s; user_id = u; role = role; nickname = none })

-- `serverModel.create`
unfoldable pub new_server : Text → Option Text → ℕ → Bool → Action Registry Server
new_server name icon u flag = do
  i ← gets (λ r. r.next_id)
  let d : Server = record {
    id = i;
    name = name;
    icon_url = icon;
    owner_id = u;
    invite_code = none;
    is_default = flag;
  }
  modify (λ r. record r { servers = r.servers ++ d ∷ []; next_id = suc r.next_id })
  pure d

-- `emitToServer`, `emitToUser`
abbrev pub send_event : ServerEvent → Action Registry (Unit {0})
send_event e = modify (λ r. record r { sent = e ∷ r.sent })

-- `isDefaultServer`
abbrev pub is_default_server : ℕ → Option ℕ → Bool
is_default_server s none = false
is_default_server s (some d) = d == s

-- `requireMembership`
unfoldable pub require_membership : ℕ → ℕ → Action Registry ServerMember
require_membership s u = do
  found ← gets (λ r. get_membership s u r.members)
  or_throw found (forbidden not_a_member)

-- `requireRole`
unfoldable pub require_role : ℕ → ℕ → MemberRole → Action Registry ServerMember
require_role s u least = do
  m ← require_membership s u
  throw_if (ltb (role_rank m.role) (role_rank least)) (forbidden insufficient_role)
  pure m

-- `findByIdAndUpdate` followed by the check that the server was found.
unfoldable pub update_found : ℕ → (Server → Server) → Action Registry Server
update_found s f = do
  found ← gets (λ r. find_server s r.servers)
  d ← or_throw found (not_found server_not_found)
  modify (λ r. record r { servers = change_server s f r.servers })
  pure (f d)
