-- ===== src/Servers/Tests.antt =====
-- Examples: server 1 is owned by user 10, with the admin 11 and the member 12.
use backend_htssclub.Base.{ℕ, ◌≡◌, refl, true, false, none, some, List, [], ◌∷◌, arith}
use backend_htssclub.Common.Enums.{owner, admin, member}
use backend_htssclub.Common.Action.{err, not_found, invalid_invite, ◌>>=◌}
use backend_htssclub.Servers.{
  Server, Registry, find_server, get_membership, is_banned, is_some, require_role,
  require_membership, delete_ban,
}
use backend_htssclub.Servers.Life.{
  create_invite, revoke_invite, join_server, ensure_default_server, add_user_to_default_server,
  code_taken,
}
use backend_htssclub.Servers.Admin.{update_member_role, unban_member}
use backend_htssclub.Servers.Requests
use backend_htssclub.Servers.Requests.{
  ServerRequest, answer, answer_all, registers, creates, invites, redeems,
}
use backend_htssclub.Servers.Changes.{Change, membership}
use backend_htssclub.Servers.Changes.Served.{answer-Change}
use backend_htssclub.Servers.Sound.{IsSound, is_owned_by}
use backend_htssclub.Servers.Owners.{answer_all-IsSound}
use backend_htssclub.Servers.Shield.{answer-shielded, owner_stays}
use backend_htssclub.Servers.Barred.{IsBarred, answer_all-IsBarred, ban_lifted, Governs}
use backend_htssclub.Servers.Invites.{join-create_invite}
use backend_htssclub.Servers.Roles.{update_member_role_lem, may_assign, is_ok}
use backend_htssclub.Servers.Default.{add_user-ensure_default_server}

abbrev empty : Registry
empty = record {
  servers = [];
  members = [];
  bans = [];
  default_server_id = none;
  sent = [];
  next_id = 1;
}

empty-IsSound : IsSound empty
unfolding find_server get_membership
empty-IsSound = record {
  owned = λ s u. refl;
  homes = λ s u h. h;
  fresh = λ s h. absurd (ground (arith, h));
  default = λ s h. absurd (ground (arith, h));
}

empty-IsBarred : IsBarred empty
unfolding is_banned get_membership
empty-IsBarred = record {
  apart = λ s u h. refl;
  spared = λ s u h. refl;
  used = λ s u h. absurd (ground (arith, h));
}

abbrev days : List (ℕ × ServerRequest)
days =
    (10, creates (72 ∷ []) none)
    ∷ (10, invites 1 77)
    ∷ (11, redeems 77)
    ∷ (12, redeems 77)
    ∷ (10, Requests.assigns 1 11 admin)
    ∷ (11, Requests.bans_user 1 12 none)
    ∷ (12, redeems 77)
    ∷ (10, Requests.transfers 1 11)
    ∷ []

answer_all-IsSound_example : IsSound (answer_all days empty)
answer_all-IsSound_example = answer_all-IsSound days empty empty-IsSound

answer_all-IsBarred_example : IsBarred (answer_all days empty)
answer_all-IsBarred_example = answer_all-IsBarred days empty empty-IsSound empty-IsBarred

abbrev club : Server
club = record {
  id = 1;
  name = 72 ∷ [];
  icon_url = none;
  owner_id = 10;
  invite_code = none;
  is_default = false;
}

abbrev town : Registry
town = record {
  servers = club ∷ [];
  members = membership 1 10 owner ∷ membership 1 11 admin ∷ membership 1 12 member ∷ [];
  bans = record { server_id = 1; user_id = 13; banned_by = 11; reason = none } ∷ [];
  default_server_id = none;
  sent = [];
  next_id = 2;
}

answer-Change_example : Change 11 town (answer 11 (Requests.kicks 1 12) town).1
answer-Change_example = answer-Change 11 (Requests.kicks 1 12) town

answer-shielded_example :
    get_membership 1 10 (answer 11 (Requests.kicks 1 10) town).1.members
    ≡ some (membership 1 10 owner)
unfolding get_membership
answer-shielded_example =
    answer-shielded 11 (Requests.kicks 1 10) town 1 10 (membership 1 10 owner) refl refl refl

town-IsSound : IsSound town
unfolding find_server get_membership
town-IsSound = record {
  owned = λ s u. ground arith;
  homes = λ s u h. ground (arith, h);
  fresh = λ s h. ground (arith, h);
  default = λ s h. absurd (ground (arith, h));
}

owner_stays_example :
    is_owned_by 10 (find_server 1 (answer 11 (Requests.transfers 1 12) town).1.servers) ≡ true
unfolding find_server
owner_stays_example = owner_stays 11 (Requests.transfers 1 12) town 1 club town-IsSound refl refl

ban_lifted_example : Governs 11 1 town
unfolding is_banned answer unban_member require_role require_membership get_membership delete_ban
    ◌>>=◌
ban_lifted_example = ban_lifted 11 (Requests.unbans 1 13) town 1 13 refl refl

join-create_invite_example :
    let invited = (create_invite 1 11 55 town).1 in
    let revoked = (revoke_invite 1 11 invited).1 in
    (get_membership 1 14 (join_server 14 55 invited).1.members ≡ some (membership 1 14 member))
    × (join_server 14 55 revoked ≡ (err (not_found invalid_invite), revoked))
unfolding find_server get_membership is_banned code_taken
join-create_invite_example =
    join-create_invite 11 1 55 14 town (membership 1 11 admin) club (refl, refl) refl refl refl refl

update_member_role_lem_example :
    let (outcome, after) = update_member_role 1 11 12 admin town in
    (is_ok outcome ≡ may_assign admin member admin)
    × (get_membership 1 12 after.members ≡ some (membership 1 12 admin))
unfolding get_membership
update_member_role_lem_example =
    update_member_role_lem 1 11 12 admin town (membership 1 11 admin) (membership 1 12 member) refl
      refl

add_user-ensure_default_server_example :
    let started = (ensure_default_server none (some 10) town).1 in
    IsSound started
    × ((d : ℕ) × (started.default_server_id ≡ some d)
        × (is_some (get_membership d 15 (add_user_to_default_server 15 started).1.members) ≡ true))
add_user-ensure_default_server_example = add_user-ensure_default_server none 10 15 town town-IsSound
