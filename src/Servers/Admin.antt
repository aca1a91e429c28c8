-- ===== src/Servers/Admin.antt =====
-- What the owner and the admins of a server do: roles, removals, ownership, bans, nicknames.
use backend_htssclub.Base.{
  ℕ, Bool, false, not, ◌&&◌, Option, none, some, List, [], ◌∷◌, ltb, leb, ◌==◌, if◌then◌else◌,
  reverse, contains,
}
use backend_htssclub.Common.Enums.{MemberRole, owner, admin}
use backend_htssclub.Common.Action.{
  Action, pure, throw_if, or_throw, gets, modify, with_transaction, ◌>>=◌, ◌>>◌, bad_request,
  forbidden, not_found, owner_unassignable, member_not_found, owner_protected, rank_protected,
  self_kick, already_owner, self_ban, default_unbannable, ban_not_found, nickname_forbidden,
}
use backend_htssclub.Servers.{
  Text, ServerMember, ServerBan, Registry, role_rank, is_owner, get_membership, is_banned,
  change_server, change_member, delete_member, delete_ban, send_event, is_default_server,
  require_membership, require_role, member_left, role_updated, nickname_updated,
  ownership_transferred, member_banned, you_were_banned, announcement,
}

-- ROLE_RANK[target.role] >= ROLE_RANK[actor.role] && actor.role !== OWNER, as updateMemberRole,
-- kickMember, banMember and setNickname each write it out.
abbrev pub is_shielded : MemberRole → MemberRole → Bool
is_shielded target actor = leb (role_rank actor) (role_rank target) && not (is_owner actor)

-- `updateMemberRole`
unfoldable pub update_member_role : ℕ → ℕ → ℕ → MemberRole → Action Registry ServerMember
update_member_role s a u role = do
  actor ← require_role s a admin
  throw_if (is_owner role) (bad_request owner_unassignable)
  found ← gets (λ r. get_membership s u r.members)
  target ← or_throw found (not_found member_not_found)
  throw_if (is_owner target.role) (forbidden owner_protected)
  throw_if (is_shielded target.role actor.role) (forbidden rank_protected)
  modify (λ r. record r { members = change_member s u (λ m. record m { role = role }) r.members })
  send_event (role_updated s u role)
  pure (record target { role = role })

-- `kickMember`
unfoldable pub kick_member : ℕ → ℕ → ℕ → Action Registry (Unit {0})
kick_member s a u = do
  actor ← require_role s a admin
  throw_if (a == u) (bad_request self_kick)
  found ← gets (λ r. get_membership s u r.members)
  target ← or_throw found (not_found member_not_found)
  throw_if (is_owner target.role) (forbidden owner_protected)
  throw_if (is_shielded target.role actor.role) (forbidden rank_protected)
  modify (λ r. record r { members = delete_member s u r.members })
  send_event (member_left s u)

-- `transferOwnership`
unfoldable pub transfer_ownership : ℕ → ℕ → ℕ → Action Registry (Unit {0})
transfer_ownership s a u = do
  _ ← require_role s a owner
  throw_if (a == u) (bad_request already_owner)
  found ← gets (λ r. get_membership s u r.members)
  _ ← or_throw found (not_found member_not_found)
  with_transaction (do
    modify
        (λ r. record r { members = change_member s a (λ m. record m { role = admin }) r.members })
    modify
        (λ r. record r { members = change_member s u (λ m. record m { role = owner }) r.members })
    modify (λ r. record r { servers = change_server s (λ d. record d { owner_id = u }) r.servers })
    send_event (ownership_transferred s a u))

-- `updateOne(…, { upsert: true })`: a field without a value is not set.
abbrev set_or_keep : Option Text → Option Text → Option Text
set_or_keep none old = old
set_or_keep (some new) old = some new

unfoldable pub upsert_ban : ServerBan → List ServerBan → List ServerBan
upsert_ban b [] = b ∷ []
upsert_ban b (c ∷ cs) =
    let rest = upsert_ban b cs in
    if c.server_id == b.server_id && c.user_id == b.user_id
    then record c { banned_by = b.banned_by; reason = set_or_keep b.reason c.reason } ∷ cs
    else c ∷ rest

-- The checks of a ban on the membership of the user, if there is one,
abbrev pub owner_is_target : Option ServerMember → Bool
owner_is_target none = false
owner_is_target (some m) = is_owner m.role

abbrev pub target_is_shielded : Option ServerMember → MemberRole → Bool
target_is_shielded none actor = false
target_is_shielded (some m) actor = is_shielded m.role actor

-- `banMember`
unfoldable pub ban_member : ℕ → ℕ → ℕ → Option Text → Action Registry (Unit {0})
ban_member s a u reason = do
  actor ← require_role s a admin
  throw_if (a == u) (bad_request self_ban)
  d ← gets (λ r. r.default_server_id)
  throw_if (is_default_server s d) (forbidden default_unbannable)
  target ← gets (λ r. get_membership s u r.members)
  throw_if (owner_is_target target) (forbidden owner_protected)
  throw_if (target_is_shielded target actor.role) (forbidden rank_protected)
  with_transaction (do
    modify (λ r. record r { members = delete_member s u r.members })
    modify (λ r. record r {
      bans =
          upsert_ban (record { server_id = s; user_id = u; banned_by = a; reason = reason }) r.bans;
    }))
  send_event (member_banned s u reason)
  send_event (you_were_banned s u reason)

-- `unbanMember`
unfoldable pub unban_member : ℕ → ℕ → ℕ → Action Registry (Unit {0})
unban_member s a u = do
  _ ← require_role s a admin
  found ← gets (λ r. is_banned s u r.bans)
  throw_if (not found) (not_found ban_not_found)
  modify (λ r. record r { bans = delete_ban s u r.bans })

-- The characters that `trim` removes: white space and line ends.
abbrev pub blanks : List ℕ
blanks =
    9 ∷ 10 ∷ 11 ∷ 12 ∷ 13 ∷ 32 ∷ 160 ∷ 5760 ∷ 8192 ∷ 8193 ∷ 8194 ∷ 8195 ∷ 8196 ∷ 8197 ∷ 8198 ∷ 8199
    ∷ 8200 ∷ 8201 ∷ 8202 ∷ 8232 ∷ 8233 ∷ 8239 ∷ 8287 ∷ 12288 ∷ 65279 ∷ []

unfoldable pub trim_start : Text → Text
trim_start [] = []
trim_start (c ∷ cs) = if contains c blanks then trim_start cs else c ∷ cs

unfoldable pub trim : Text → Text
trim t = reverse (trim_start (reverse (trim_start t)))

-- `clean ? clean : undefined`
abbrev pub or_undefined : Text → Option Text
or_undefined [] = none
or_undefined (c ∷ cs) = some (c ∷ cs)

abbrev pub clean_nickname : Option Text → Option Text
clean_nickname none = none
clean_nickname (some t) = or_undefined (trim t)

-- `setNickname`
unfoldable pub set_nickname : ℕ → ℕ → ℕ → Option Text → Action Registry (Option Text)
set_nickname s a u nickname = do
  actor ← require_membership s a
  throw_if (not (a == u) && ltb (role_rank actor.role) (role_rank admin))
      (forbidden nickname_forbidden)
  found ← gets (λ r. if a == u then some actor else get_membership s u r.members)
  target ← or_throw found (not_found member_not_found)
  throw_if (not (a == u) && is_shielded target.role actor.role) (forbidden rank_protected)
  modify (λ r. record r {
    members = change_member s u (λ m. record m { nickname = clean_nickname nickname }) r.members;
  })
  send_event (nickname_updated s u (clean_nickname nickname))
  pure (clean_nickname nickname)

-- `announce`
unfoldable pub announce : ℕ → ℕ → Text → Action Registry (Unit {0})
announce s a message = do _ ← require_role s a admin; send_event (announcement s a message)
