-- ===== src/Groups/Router.antt =====
-- packages/groups/src/group-router.ts: the decision where a worker's shares go. The two Prisma
-- queries are parameters: `find_group` by slug, `find_member` by group id and public key.
pub mod Decision
use hashden.Common.{Bool, List, [], ◌∷◌, Option, none, some, if◌then◌else◌}
use hashden.Common.Text.{Text, codes, text_eq}
use hashden.Shared.WorkerName.{
  Decoded, JsValue, ParsedWorkerName, parsed, failed, WorkerNameError, parse_worker_name,
}

pub record GroupRow : Type 0 where
  pub id : Text
  pub visibility : Text

pub record MemberRow : Type 0 where
  pub group_id : Text
  pub btc_address : Text

pub data Refusal : Type 0 where
  invalid_name : WorkerNameError → Refusal
  group_not_found group_deleted not_member : Refusal

pub record Route : Type 0 where
  pub group_id : Text
  pub member_pubkey : Text
  pub btc_address : Text
  pub worker_id : Option Text

pub data RouteDecision : Type 0 where
  routed : Route → RouteDecision
  refused : Refusal → RouteDecision

module _ (decode : Text → Option Decoded) (find_group : Text → Option GroupRow)
    (find_member : Text → Text → Option MemberRow) where
  abbrev pub route_member : Text → Text → Option Text → Option MemberRow → RouteDecision
  route_member group_id pubkey worker_id none = refused not_member
  route_member group_id pubkey worker_id (some member) = routed (record {
    group_id = group_id;
    member_pubkey = pubkey;
    btc_address = member.btc_address;
    worker_id = worker_id;
  })

  abbrev pub route_group : Text → Option Text → Option GroupRow → RouteDecision
  route_group pubkey worker_id none = refused group_not_found
  route_group pubkey worker_id (some group) =
      if text_eq group.visibility (codes "DELETED")
      then refused group_deleted
      else route_member group.id pubkey worker_id (find_member group.id pubkey)

  abbrev pub route_parsed : ParsedWorkerName → RouteDecision
  route_parsed (failed reason) = refused (invalid_name reason)
  route_parsed (parsed slug pubkey worker_id) = route_group pubkey worker_id (find_group slug)

  unfoldable pub route : JsValue → RouteDecision
  route worker_name = route_parsed (parse_worker_name decode worker_name)
