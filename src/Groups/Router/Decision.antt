-- ===== src/Groups/Router/Decision.antt =====
-- packages/groups/src/group-router.ts: what each decision says about the database.
use hashden.Common.{◌≡◌, refl, ◌↔◌, inl, inr, true, false, Option, some, arith, Option-cases}
use hashden.Common.Text.{Text, codes, text_eq}
use hashden.Shared.WorkerName.{
  Decoded, JsValue, ParsedWorkerName, parsed, failed, parse_worker_name,
}
use hashden.Groups.Router.{
  GroupRow, MemberRow, group_deleted, Route, routed, refused, route_parsed, route,
}

module _ (decode : Text → Option Decoded) (find_group : Text → Option GroupRow)
    (find_member : Text → Text → Option MemberRow) where
  -- The name parses, its den is there and is not deleted, and the key is one of its members.
  pub record IsRoutable (name : JsValue) (r : Route) : Type 0 where
    pub slug : Text
    pub group : GroupRow
    pub member : MemberRow
    pub named : parse_worker_name decode name ≡ parsed slug r.member_pubkey r.worker_id
    pub found : find_group slug ≡ some group
    pub live : text_eq group.visibility (codes "DELETED") ≡ false
    pub belongs : find_member group.id r.member_pubkey ≡ some member
    pub in_group : r.group_id ≡ group.id
    pub pays : r.btc_address ≡ member.btc_address

  route_parsed_sound :
      (name : JsValue) (p : ParsedWorkerName) (r : Route)
      → parse_worker_name decode name ≡ p
      → route_parsed decode find_group find_member p ≡ routed r
      → IsRoutable name r
  route_parsed_sound name (failed e) r n h = cc
  route_parsed_sound name (parsed slug pubkey w) r n h = elim (Option-cases (find_group slug)) [
    | inl missing ↦ absurd (ground arith)
    | inr (group, found) ↦ elim (Option-cases (find_member group.id pubkey)) [
      | inl stranger ↦ absurd (ground arith)
      | inr (member, belongs) ↦ record {
        slug = slug;
        group = group;
        member = member;
        named = ground arith;
        found = found;
        live = ground arith;
        belongs = ground arith;
        in_group = ground arith;
        pays = ground arith;
      }
    ]
  ]

  -- A worker is routed exactly when its name parses to a den that exists and is not deleted and to
  -- a key that is a member of it; the payout address is then that member's.
  pub route_iff :
      (name : JsValue) (r : Route)
      → (route decode find_group find_member name ≡ routed r) ↔ IsRoutable name r
  unfolding route
  route_iff name r = (
    route_parsed_sound name _ r refl,
    λ i. ground (arith, i.named, i.found, i.live, i.belongs, i.in_group, i.pays),
  )

  -- Shares for a deleted den are refused as such, whoever sends them.
  pub route_deleted :
      (name : JsValue) (slug pubkey : Text) (worker_id : Option Text) (group : GroupRow)
      → parse_worker_name decode name ≡ parsed slug pubkey worker_id
      → find_group slug ≡ some group
      → text_eq group.visibility (codes "DELETED") ≡ true
      → route decode find_group find_member name ≡ refused group_deleted
  unfolding route
  route_deleted name slug pubkey worker_id group p f d = rw (p, f, d) refl
