-- ===== src/Servers/Barred.antt =====
-- Bans of src/servers/servers.service.ts: who is banned from a server is not a member of it.
use backend_htssclub.Base.{
  ℕ, ◌<◌, ◌≤◌, ◌≡◌, refl, true, false, some, List, [], ◌∷◌, ◌++◌, ltb, ◌==◌, arith,
}
use backend_htssclub.Common.Enums.{MemberRole, owner, admin, member}
use backend_htssclub.Servers.{
  ServerMember, ServerBan, ServerEvent, Registry, role_rank, get_membership, is_membership,
  is_banned, is_some, change_member, delete_member,
}
use backend_htssclub.Servers.Requests.{ServerRequest, answer, answer_all}
use backend_htssclub.Servers.Changes.{
  membership, Change, only_sends, edits, founds, deletes, enters_default, enters, leaves, assigns,
  kicks, transfers, bans_user, unbans, renames,
}
use backend_htssclub.Servers.Changes.Served.{answer-Change}
use backend_htssclub.Servers.Rows.{
  get_membership-snoc, get_membership-delete, get_membership-clear, get_membership-change,
  is_banned-delete, is_banned-clear, is_banned-upsert,
}
use backend_htssclub.Servers.Sound.{IsSound}
use backend_htssclub.Servers.Owners.{Change-IsSound}

-- Nobody is banned from the default server, nor from a server with an identifier not yet used.
pub record IsBarred (r : Registry) : Type 0 where
  pub apart :
      (s u : ℕ) → is_banned s u r.bans ≡ true → is_some (get_membership s u r.members) ≡ false
  pub spared : (s u : ℕ) → r.default_server_id ≡ some s → is_banned s u r.bans ≡ false
  pub used : (s u : ℕ) → is_banned s u r.bans ≡ true → s < r.next_id

module _ (r : Registry) (p : IsBarred r) (es : List ServerEvent) where
  -- No new member,
  fewer :
      (ms : List ServerMember)
      → ((s u : ℕ)
          → is_some (get_membership s u r.members) ≡ false
          → is_some (get_membership s u ms) ≡ false)
      → IsBarred (record r { members = ms; sent = es })
  fewer ms h = record { apart = λ s u b. h s u (p.apart s u b); spared = p.spared; used = p.used }

  -- or one who is not banned.
  one_more :
      (s u : ℕ) (role : MemberRole)
      → is_banned s u r.bans ≡ false
      → IsBarred (record r { members = r.members ++ membership s u role ∷ []; sent = es })
  one_more s u role free = record {
    apart = λ t v b.
        ground
          (arith, get_membership-snoc t v (membership s u role) r.members, p.apart t v, b, free);
    spared = p.spared;
    used = p.used;
  }

still :
    (s u t v : ℕ) (f : ServerMember → ServerMember) (ms : List ServerMember)
    → ((m : ServerMember) → is_membership s u (f m) ≡ is_membership s u m)
    → is_some (get_membership s u ms) ≡ false
    → is_some (get_membership s u (change_member t v f ms)) ≡ false
still s u t v f ms k h = ground (arith, get_membership-change s u t v f ms k, h)

less :
    (s u t v : ℕ) (ms : List ServerMember)
    → is_some (get_membership s u ms) ≡ false
    → is_some (get_membership s u (delete_member t v ms)) ≡ false
less s u t v ms h = ground (arith, get_membership-delete s u t v ms, h)

Change-IsBarred :
    (a : ℕ) (r : Registry) {r' : Registry} → IsSound r → IsBarred r → Change a r r' → IsBarred r'
Change-IsBarred a r q p (only_sends es) = record {
  apart = p.apart;
  spared = p.spared;
  used = p.used;
}
Change-IsBarred a r q p (edits s f es actor h k) = record {
  apart = p.apart;
  spared = p.spared;
  used = p.used;
}
Change-IsBarred a r q p (founds d es i o) = record {
  apart = λ t u b. ground (
    arith,
    get_membership-snoc t u (membership r.next_id a owner) r.members,
    p.apart t u b,
    p.used t u b,
  );
  spared = p.spared;
  used = λ t u b. omega (arith, p.used t u b);
}
Change-IsBarred a r q p (deletes s es actor h n) = record {
  apart = λ t u b.
      ground
        (arith, get_membership-clear t u s r.members, is_banned-clear t u s r.bans, p.apart t u, b);
  spared = λ t u e. ground (arith, is_banned-clear t u s r.bans, p.spared t u e);
  used = λ t u b. p.used t u (ground (arith, is_banned-clear t u s r.bans, b));
}
Change-IsBarred a r q p (enters_default s es d n) = one_more r p es s a member (p.spared s a d)
Change-IsBarred a r q p (enters d code es found free n) = one_more r p es d.id a member free
Change-IsBarred a r q p (leaves s es m found low n) =
    fewer r p es (delete_member s a r.members) (λ t u h. less t u s a r.members h)
Change-IsBarred a r q p (assigns s v role es actor target h n found low under) =
    fewer r p es (change_member s v (λ m. record m { role = role }) r.members)
      (λ t u k. still t u s v (λ m. record m { role = role }) r.members (λ m. refl) k)
Change-IsBarred a r q p (kicks s v es actor target h n found low under) =
    fewer r p es (delete_member s v r.members) (λ t u k. less t u s v r.members k)
Change-IsBarred a r q p (transfers s v es actor target h n found) =
    let demote : ServerMember → ServerMember = λ m. record m { role = admin } in
    let promote : ServerMember → ServerMember = λ m. record m { role = owner } in
    let rest = change_member s a demote r.members in
    record {
      apart = λ t u b.
          still t u s v promote rest (λ m. refl)
            (still t u s a demote r.members (λ m. refl) (p.apart t u b));
      spared = p.spared;
      used = p.used;
    }
Change-IsBarred a r q p (bans_user s v reason es actor h n d low under) =
    let ban : ServerBan = record { server_id = s; user_id = v; banned_by = a; reason = reason } in
    let exists : s < r.next_id = q.fresh s (q.homes s a (rw h.0 refl)) in
    record {
      apart = λ t u b. ground (
        arith,
        get_membership-delete t u s v r.members,
        is_banned-upsert t u ban r.bans,
        p.apart t u,
        b,
      );
      spared = λ t u e. ground (arith, is_banned-upsert t u ban r.bans, p.spared t u e, d, e);
      used = λ t u b. ground (arith, is_banned-upsert t u ban r.bans, p.used t u, b, exists);
    }
Change-IsBarred a r q p (unbans s v es actor h) = record {
  apart = λ t u b. p.apart t u (ground (arith, is_banned-delete t u s v r.bans, b));
  spared = λ t u e. ground (arith, is_banned-delete t u s v r.bans, p.spared t u e);
  used = λ t u b. p.used t u (ground (arith, is_banned-delete t u s v r.bans, b));
}
Change-IsBarred a r q p (renames s v nickname es actor target h found under) =
    fewer r p es (change_member s v (λ m. record m { nickname = nickname }) r.members)
      (λ t u k. still t u s v (λ m. record m { nickname = nickname }) r.members (λ m. refl) k)

-- Over every history of requests that starts where the owners are recorded consistently and nobody
-- is both banned from a server and a member of it, that stays so.
pub answer_all-IsBarred :
    (qs : List (ℕ × ServerRequest)) (r : Registry)
    → IsSound r
    → IsBarred r
    → IsBarred (answer_all qs r)
answer_all-IsBarred [] r p b = b
answer_all-IsBarred ((a, q) ∷ qs) r p b =
    let step = answer-Change a q r in
    answer_all-IsBarred qs (answer a q r).1 (Change-IsSound a r p step)
      (Change-IsBarred a r p b step)

abbrev pub Governs : ℕ → ℕ → Registry → Type 0
Governs a s r =
    (m : ServerMember) × (get_membership s a r.members ≡ some m) × (2 ≤ role_rank m.role)

governs :
    (a s t : ℕ) (r : Registry) (actor : ServerMember) (least : MemberRole)
    → (t == s) ≡ true
    → get_membership t a r.members ≡ some actor
    → ltb (role_rank actor.role) (role_rank least) ≡ false
    → 2 ≤ role_rank least
    → Governs a s r
governs a s t r actor least here h high enough =
    let e : t ≡ s = ground arith in (actor, rw (← e) h, ground (arith, high, enough))

lifted :
    (a : ℕ) (r : Registry) (s u : ℕ) {r' : Registry}
    → is_banned s u r.bans ≡ true
    → Change a r r'
    → is_banned s u r'.bans ≡ false
    → Governs a s r
lifted a r s u before (only_sends es) after = absurd (ground (arith, before, after))
lifted a r s u before (edits t f es actor h k) after = absurd (ground (arith, before, after))
lifted a r s u before (founds d es i o) after = absurd (ground (arith, before, after))
lifted a r s u before (enters_default t es d n) after = absurd (ground (arith, before, after))
lifted a r s u before (enters d code es f free n) after = absurd (ground (arith, before, after))
lifted a r s u before (leaves t es m f low n) after = absurd (ground (arith, before, after))
lifted a r s u before (assigns t v role es actor target h n f low under) after =
    absurd (ground (arith, before, after))
lifted a r s u before (kicks t v es actor target h n f low under) after =
    absurd (ground (arith, before, after))
lifted a r s u before (transfers t v es actor target h n f) after =
    absurd (ground (arith, before, after))
lifted a r s u before (renames t v nickname es actor target h f under) after =
    absurd (ground (arith, before, after))
lifted a r s u before (deletes t es actor h n) after =
    governs a s t r actor owner (ground (arith, is_banned-clear s u t r.bans, before, after)) h.0
      h.1 (omega arith)
lifted a r s u before (bans_user t v reason es actor h n d low under) after = absurd (
    ground (
      arith,
      is_banned-upsert s u (record { server_id = t; user_id = v; banned_by = a; reason = reason })
          r.bans,
      before,
      after,
    ))
lifted a r s u before (unbans t v es actor h) after =
    governs a s t r actor admin (ground (arith, is_banned-delete s u t v r.bans, before, after)) h.0
      h.1 (omega arith)

-- A ban is lifted only by the request of an admin or the owner of that server.
pub ban_lifted :
    (a : ℕ) (q : ServerRequest) (r : Registry) (s u : ℕ)
    → is_banned s u r.bans ≡ true
    → is_banned s u (answer a q r).1.bans ≡ false
    → Governs a s r
ban_lifted a q r s u before after = lifted a r s u before (answer-Change a q r) after
