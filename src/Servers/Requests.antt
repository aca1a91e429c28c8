-- ===== src/Servers/Requests.antt =====
-- The requests to src/servers/servers.controller.ts, and a new account, as one step of the service.
use backend_htssclub.Base.{ℕ, Option, List, [], ◌∷◌}
use backend_htssclub.Common.Enums.{MemberRole}
use backend_htssclub.Common.Action.{Action, pure, ◌>>◌}
use backend_htssclub.Servers.{Text, Registry}
use backend_htssclub.Servers.Life.{
  add_user_to_default_server, create_server, update_server, remove_server, create_invite,
  revoke_invite, join_server, leave_server,
}
use backend_htssclub.Servers.Admin.{
  update_member_role, kick_member, transfer_ownership, ban_member, unban_member, set_nickname,
  announce,
}

-- A new account is put into the default server (src/auth/auth.service.ts).
pub data ServerRequest : Type 0 where
  registers : ServerRequest
  creates : Text → Option Text → ServerRequest
  updates : ℕ → Option Text → Option Text → ServerRequest
  deletes : ℕ → ServerRequest
  invites : ℕ → ℕ → ServerRequest
  revokes : ℕ → ServerRequest
  redeems : ℕ → ServerRequest
  leaves : ℕ → ServerRequest
  assigns : ℕ → ℕ → MemberRole → ServerRequest
  kicks : ℕ → ℕ → ServerRequest
  transfers : ℕ → ℕ → ServerRequest
  bans_user : ℕ → ℕ → Option Text → ServerRequest
  unbans : ℕ → ℕ → ServerRequest
  renames : ℕ → ℕ → Option Text → ServerRequest
  announces : ℕ → Text → ServerRequest

-- The controller takes the acting user `a` from the token.
unfoldable pub answer : ℕ → ServerRequest → Action Registry (Unit {0})
answer a registers = add_user_to_default_server a >> pure tt
answer a (creates name icon) = create_server a name icon >> pure tt
answer a (updates s name icon) = update_server s a name icon >> pure tt
answer a (deletes s) = remove_server s a
answer a (invites s code) = create_invite s a code >> pure tt
answer a (revokes s) = revoke_invite s a
answer a (redeems code) = join_server a code >> pure tt
answer a (leaves s) = leave_server s a
answer a (assigns s u role) = update_member_role s a u role >> pure tt
answer a (kicks s u) = kick_member s a u
answer a (transfers s u) = transfer_ownership s a u
answer a (bans_user s u reason) = ban_member s a u reason
answer a (unbans s u) = unban_member s a u
answer a (renames s u nickname) = set_nickname s a u nickname >> pure tt
answer a (announces s message) = announce s a message

abbrev pub answer_all : List (ℕ × ServerRequest) → Registry → Registry
answer_all [] r = r
answer_all ((a, q) ∷ qs) r = answer_all qs (answer a q r).1
