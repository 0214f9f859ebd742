-- ===== src/SubnetTree/Requests.antt =====
-- The handlers of frontend/src/pages/Subnets/SubnetsPage.tsx: `fetchTree`, `openCreate`, `openEdit`,
-- `handleSubmit` and `handleDelete`. Ant Design's form is the record of its fields' values.
use iop.Base.{
  ℕ, ◌≡◌, refl, Bool, true, false, List, [], ◌∷◌, Option, none, some, Text, text, if◌then◌else◌,
}
use iop.Types.Record.{Environment}
use iop.Types.Subnet.{SubnetCreate, SubnetUpdate, IpVersion, v4}
use iop.Api.{ApiError, Response, resolved, rejected, error_text}
use iop.Text.Search.{is_empty}
use iop.SubnetTree.{NodeInfo, Forest}

-- The values of the form, as far as they are set.
pub record FormValues : Type 0 where
  pub cidr : Option Text
  pub name : Option Text
  pub description : Option Text
  pub gateway : Option Text
  pub vlan_id : Option ℕ
  pub environment : Option Environment
  pub vrf_id : Option Text
  pub alert_threshold : Option ℕ
  pub ip_version : Option IpVersion

abbrev pub blank : FormValues
blank = record {
  cidr = none;
  name = none;
  description = none;
  gateway = none;
  vlan_id = none;
  environment = none;
  vrf_id = none;
  alert_threshold = none;
  ip_version = none;
}

pub data SubnetNotice : Type 0 where
  failed : Text → SubnetNotice
  subnet_updated subnet_created subnet_deleted : SubnetNotice

pub record SubnetsState : Type 0 where
  pub tree : Forest
  pub loading : Bool
  pub filter_vrf : Option Text
  pub filter_env : Option Environment
  pub modal_open : Bool
  pub editing_subnet : Option NodeInfo
  pub submitting : Bool
  pub form : FormValues
  pub notices : List SubnetNotice

-- The query of `subnetsApi.tree`.
pub record TreeParams : Type 0 where
  pub vrf_id : Option Text
  pub environment : Option Environment

-- `if (filterVrf) params.vrf_id = filterVrf`: the empty text sets nothing.
abbrev pub if_set : Option Text → Option Text
if_set none = none
if_set (some t) = if is_empty t then none else some t

unfoldable pub tree_params : Option Text → Option Environment → TreeParams
tree_params filter_vrf filter_env = record { vrf_id = if_set filter_vrf; environment = filter_env }

abbrev pub warn : Text → ApiError → SubnetsState → SubnetsState
warn fallback e s = record s { notices = failed (error_text e fallback) ∷ s.notices }

-- `fetchTree` up to its `await`, and from it on.
unfoldable pub start_fetch : SubnetsState → SubnetsState × TreeParams
unfolding tree_params
start_fetch s = (record s { loading = true }, tree_params s.filter_vrf s.filter_env)

unfoldable pub settle_fetch : Response Forest → SubnetsState → SubnetsState
settle_fetch (resolved tree) s = record s { tree = tree; loading = false }
settle_fetch (rejected e) s =
    let warned : SubnetsState = warn (text "Failed to load subnets") e s in
    record warned { loading = false }

unfoldable pub open_create : SubnetsState → SubnetsState
open_create s = record s { editing_subnet = none; form = blank; modal_open = true }

abbrev pub form_of : NodeInfo → FormValues
form_of n = record {
  cidr = some n.cidr;
  name = some n.name;
  description = n.description;
  gateway = n.gateway;
  vlan_id = n.vlan_id;
  environment = some n.environment;
  vrf_id = n.vrf_id;
  alert_threshold = n.alert_threshold;
  ip_version = some n.ip_version;
}

unfoldable pub open_edit : NodeInfo → SubnetsState → SubnetsState
open_edit n s = record s { editing_subnet = some n; form = form_of n; modal_open = true }

-- What the form sends. The form's rules make a new subnet's CIDR, name and environment be there;
-- where a rule is not met the submit does not happen.
pub data SubnetRequest : Type 0 where
  update : Text → SubnetUpdate → SubnetRequest
  create : SubnetCreate → SubnetRequest

abbrev pub update_of : FormValues → SubnetUpdate
update_of v = record {
  name = v.name;
  description = v.description;
  gateway = v.gateway;
  vlan_id = v.vlan_id;
  environment = v.environment;
  vrf_id = v.vrf_id;
  alert_threshold = v.alert_threshold;
}

abbrev pub version_or : Option IpVersion → IpVersion
version_or none = v4
version_or (some v) = v

abbrev pub create_of : Text → Text → Environment → FormValues → SubnetCreate
create_of cidr name environment v = record {
  cidr = cidr;
  name = name;
  description = v.description;
  gateway = v.gateway;
  vlan_id = v.vlan_id;
  environment = environment;
  parent_id = none;
  vrf_id = v.vrf_id;
  alert_threshold = v.alert_threshold;
  ip_version = some (version_or v.ip_version);
}

abbrev pub required :
    Option Text → Option Text → Option Environment → FormValues → Option SubnetRequest
required (some c) (some n) (some e) v = some (create (create_of c n e v))
required none n e v = none
required (some c) none e v = none
required (some c) (some n) none v = none

unfoldable pub submit_request : Option NodeInfo → FormValues → Option SubnetRequest
submit_request (some n) v = some (update n.id (update_of v))
submit_request none v = required v.cidr v.name v.environment v

-- `handleSubmit` up to its `await`.
unfoldable pub start_submit : SubnetsState → SubnetsState × Option SubnetRequest
unfolding submit_request
start_submit s = (record s { submitting = true }, submit_request s.editing_subnet s.form)

abbrev pub submit_notice : Option NodeInfo → SubnetNotice
submit_notice none = subnet_created
submit_notice (some n) = subnet_updated

-- `handleSubmit` from its `await` on; the Boolean says that the tree is fetched again.
unfoldable pub settle_submit :
    Option NodeInfo → Response (Unit {0}) → SubnetsState → SubnetsState × Bool
settle_submit editing (resolved _) s = (
  record s {
    notices = submit_notice editing ∷ s.notices;
    modal_open = false;
    form = blank;
    submitting = false;
  },
  true,
)
settle_submit editing (rejected e) s =
    let warned : SubnetsState = warn (text "Operation failed") e s in
    (record warned { submitting = false }, false)

unfoldable pub settle_delete : Response (Unit {0}) → SubnetsState → SubnetsState × Bool
settle_delete (resolved _) s = (record s { notices = subnet_deleted ∷ s.notices }, true)
settle_delete (rejected e) s = (warn (text "Delete failed") e s, false)

-- The choice of the global VRF, whose value is the empty text, asks for the same tree as no choice.
pub tree_params-global :
    (filter_env : Option Environment) (s : SubnetsState)
    → (start_fetch (record s { filter_vrf = some []; filter_env = filter_env })).1
      ≡ (start_fetch (record s { filter_vrf = none; filter_env = filter_env })).1
unfolding start_fetch
tree_params-global filter_env s = refl

-- Opening a subnet and submitting the form as it was filled sends an update of that subnet with
-- the values that it has, whatever the form held before.
pub start_submit-open_edit :
    (n : NodeInfo) (s : SubnetsState)
    → (start_submit (open_edit n s)).1
      ≡ some (
          update n.id (record {
            name = some n.name;
            description = n.description;
            gateway = n.gateway;
            vlan_id = n.vlan_id;
            environment = some n.environment;
            vrf_id = n.vrf_id;
            alert_threshold = n.alert_threshold;
          }))
unfolding start_submit open_edit
start_submit-open_edit n s = refl
