-- ===== src/Servers/Life.antt =====
-- Servers as they come and go: the default server, creation, removal, invitations, joining, leaving.
use backend_htssclub.Base.{
  ℕ, Bool, true, false, not, ◌&&◌, ◌||◌, Option, none, some, List, [], ◌∷◌, ◌==◌, if◌then◌else◌,
}
use backend_htssclub.Common.Enums.{owner, admin, member}
use backend_htssclub.Common.Action.{
  Action, pure, throw_if, or_throw, gets, modify, ignore, with_transaction, ◌>>=◌, ◌>>◌,
  bad_request, forbidden, not_found, duplicate_key, default_undeletable, invalid_invite,
  banned_here, already_a_member, default_unleavable, owner_cannot_leave,
}
use backend_htssclub.Servers.{
  Text, Server, ServerMember, Registry, is_owner, find_server, get_membership, is_banned,
  change_server, delete_server, delete_member, clear_members, clear_bans, is_some, create_member,
  new_server, send_event, is_default_server, require_membership, require_role, update_found,
  member_joined, member_left, server_updated, server_deleted,
}

abbrev pub set_default : Option ℕ → Action Registry (Unit {0})
set_default d = modify (λ r. record r { default_server_id = d })

unfoldable pub find_default : List Server → Option Server
find_default [] = none
find_default (d ∷ ds) = if d.is_default then some d else find_default ds

-- 'HTSS Club'
abbrev default_name : Text
default_name = 72 ∷ 84 ∷ 83 ∷ 83 ∷ 32 ∷ 67 ∷ 108 ∷ 117 ∷ 98 ∷ []

-- The server that starts the platform, where its owner is configured,
unfoldable pub bootstrap : Option ℕ → Action Registry (Unit {0})
bootstrap none = pure tt
bootstrap (some u) = do
  created ←
      with_transaction
        (do d ← new_server default_name none u true; _ ← create_member d.id u owner; pure d)
  set_default (some created.id)

-- else the server that is marked,
unfoldable pub use_existing : Option ℕ → Option Server → Action Registry (Unit {0})
use_existing config_owner (some d) = set_default (some d.id)
use_existing config_owner none = bootstrap config_owner

-- unless the configured one exists, which is marked.
unfoldable pub use_configured : Option ℕ → Option Server → Action Registry (Unit {0})
use_configured config_owner (some d) = modify (λ r. record r {
  servers = change_server d.id (λ d. record d { is_default = true }) r.servers;
  default_server_id = some d.id;
})
use_configured config_owner none = do
  existing ← gets (λ r. find_default r.servers)
  use_existing config_owner existing

unfoldable pub find_configured : Option ℕ → List Server → Option Server
find_configured none ds = none
find_configured (some i) ds = find_server i ds

-- `ensureDefaultServer`, for the configured server and owner; an error is only logged.
unfoldable pub ensure_default_server : Option ℕ → Option ℕ → Action Registry (Unit {0})
ensure_default_server config_id config_owner =
    ignore (do d ← gets (λ r. find_configured config_id r.servers); use_configured config_owner d)

-- A user who is not yet a member of this server joins it,
unfoldable pub add_to : ℕ → ℕ → Option ServerMember → Action Registry (Unit {0})
add_to u s (some m) = pure tt
add_to u s none = do m ← create_member s u member; send_event (member_joined s u m.role)

-- `addUserToDefaultServer`
unfoldable pub add_to_default : ℕ → Option ℕ → Action Registry (Option ℕ)
add_to_default u none = pure none
add_to_default u (some s) = do
  existing ← gets (λ r. get_membership s u r.members)
  add_to u s existing
  pure (some s)

unfoldable pub add_user_to_default_server : ℕ → Action Registry (Option ℕ)
add_user_to_default_server u = do d ← gets (λ r. r.default_server_id); add_to_default u d

-- `create`
unfoldable pub create_server : ℕ → Text → Option Text → Action Registry Server
create_server u name icon =
    with_transaction (do d ← new_server name icon u false; _ ← create_member d.id u owner; pure d)

-- What is not given stays: `if (dto.name !== undefined) update.name = dto.name`.
abbrev pub given : {A : Type 0} → Option A → A → A
given none old = old
given (some new) old = new

abbrev pub given_icon : Option Text → Option Text → Option Text
given_icon none old = old
given_icon (some new) old = some new

-- `update`
unfoldable pub update_server : ℕ → ℕ → Option Text → Option Text → Action Registry Server
update_server s u name icon = do
  _ ← require_role s u admin
  d ←
      update_found s
        (λ d. record d { name = given name d.name; icon_url = given_icon icon d.icon_url })
  send_event (server_updated s)
  pure d

-- `remove`
unfoldable pub remove_server : ℕ → ℕ → Action Registry (Unit {0})
remove_server s u = do
  _ ← require_role s u owner
  d ← gets (λ r. r.default_server_id)
  throw_if (is_default_server s d) (forbidden default_undeletable)
  with_transaction (do
    modify (λ r. record r { servers = delete_server s r.servers })
    modify (λ r. record r { members = clear_members s r.members })
    modify (λ r. record r { bans = clear_bans s r.bans }))
  send_event (server_deleted s)

abbrev pub has_code : ℕ → Option ℕ → Bool
has_code c none = false
has_code c (some k) = k == c

-- The query of `join`,
unfoldable pub find_invited : ℕ → List Server → Option Server
find_invited c [] = none
find_invited c (d ∷ ds) = if has_code c d.invite_code then some d else find_invited c ds

-- and the unique index on the codes, for a new code of one server.
unfoldable pub code_taken : ℕ → ℕ → List Server → Bool
code_taken s c [] = false
code_taken s c (d ∷ ds) = (not (d.id == s) && has_code c d.invite_code) || code_taken s c ds

-- `createInvite`, with the code drawn by the caller.
unfoldable pub create_invite : ℕ → ℕ → ℕ → Action Registry ℕ
create_invite s u code = do
  _ ← require_role s u admin
  taken ← gets (λ r. code_taken s code r.servers && is_some (find_server s r.servers))
  throw_if taken duplicate_key
  _ ← update_found s (λ d. record d { invite_code = some code })
  pure code

-- `revokeInvite`
unfoldable pub revoke_invite : ℕ → ℕ → Action Registry (Unit {0})
revoke_invite s u = do
  _ ← require_role s u admin
  _ ← update_found s (λ d. record d { invite_code = none })
  pure tt

-- `join`
unfoldable pub join_server : ℕ → ℕ → Action Registry Server
join_server u code = do
  found ← gets (λ r. find_invited code r.servers)
  d ← or_throw found (not_found invalid_invite)
  banned ← gets (λ r. is_banned d.id u r.bans)
  throw_if banned (forbidden banned_here)
  existing ← gets (λ r. get_membership d.id u r.members)
  throw_if (is_some existing) (bad_request already_a_member)
  m ← create_member d.id u member
  send_event (member_joined d.id u m.role)
  pure d

-- `leave`
unfoldable pub leave_server : ℕ → ℕ → Action Registry (Unit {0})
leave_server s u = do
  m ← require_membership s u
  d ← gets (λ r. r.default_server_id)
  throw_if (is_default_server s d) (forbidden default_unleavable)
  throw_if (is_owner m.role) (bad_request owner_cannot_leave)
  modify (λ r. record r { members = delete_member s u r.members })
  send_event (member_left s u)
