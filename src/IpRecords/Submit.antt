-- ===== src/IpRecords/Submit.antt =====
-- frontend/src/pages/IPRecords/IPRecordsPage.tsx: `handleSubmit`, and the quick subnet that it
-- offers when no subnet holds the address. `toLowerCase` is the parameter `lower`.
use iop.Base.{
  ◌≡◌, refl, ap, ◌∙◌, Bool, true, false, not, ◌&&◌, [], ◌∷◌, ◌++◌, Option, none, some, Text, text,
  if◌then◌else◌,
}
use iop.Types.Record.{IpRecord, IpRecordCreate, IpRecordUpdate, OsType, Environment, production}
use iop.Types.Subnet.{Subnet, IpVersion, v4, v6}
use iop.Api.{ApiError, Response, resolved, rejected, error_text}
use iop.Text.Search.{contains, is_empty}
use iop.IpRecords.{is_ipv6, suggest_cidr}
use iop.IpRecords.Page.{RecordForm, blank_form, blank_quick, RecordsPage, succeeded, failed, notify}

pub data RecordRequest : Type 0 where
  update : Text → IpRecordUpdate → RecordRequest
  create : IpRecordCreate → RecordRequest

abbrev pub update_of : RecordForm → IpRecordUpdate
update_of v = record {
  hostname = v.hostname;
  os_type = v.os_type;
  status = v.status;
  environment = v.environment;
  owner = v.owner;
  description = v.description;
}

abbrev pub create_of : Text → OsType → Text → Environment → RecordForm → IpRecordCreate
create_of ip os subnet environment v = record {
  ip_address = ip;
  hostname = v.hostname;
  os_type = os;
  subnet_id = subnet;
  status = v.status;
  environment = environment;
  owner = v.owner;
  description = v.description;
}

-- The form's rules make a new record's address, system, subnet and environment be there; where
-- one is not met the form is not submitted.
abbrev pub required :
    Option Text
    → Option OsType
    → Option Text
    → Option Environment
    → RecordForm
    → Option RecordRequest
required (some ip) (some os) (some subnet) (some e) v = some (create (create_of ip os subnet e v))
required none os subnet e v = none
required (some ip) none subnet e v = none
required (some ip) (some os) none e v = none
required (some ip) (some os) (some subnet) none v = none

abbrev pub request_of : Option IpRecord → RecordForm → Option RecordRequest
request_of (some r) v = some (update r.id (update_of v))
request_of none v = required v.ip_address v.os_type v.subnet_id v.environment v

-- `handleSubmit` up to its request.
unfoldable pub start_submit : RecordsPage → RecordsPage × Option RecordRequest
start_submit s = (record s { submitting = true }, request_of s.editing_record s.form)

abbrev pub quick_cidr : Option Text → Text
quick_cidr none = []
quick_cidr (some ip) = if is_empty ip then [] else suggest_cidr ip

abbrev pub quick_version : Option Text → IpVersion
quick_version none = v4
quick_version (some ip) = if not (is_empty ip) && is_ipv6 ip then v6 else v4

abbrev pub or_production : Option Environment → Environment
or_production none = production
or_production (some e) = e

unfoldable pub open_quick_subnet : RecordsPage → RecordsPage
open_quick_subnet s = record s {
  quick_form = record {
    cidr = quick_cidr s.form.ip_address;
    name = [];
    environment = some (or_production s.form.environment);
    ip_version = some (quick_version s.form.ip_address);
  };
  quick_subnet_open = true;
}

abbrev pub done_text : Option IpRecord → Text
done_text none = text "IP record created"
done_text (some r) = text "IP record updated"

-- What a refused record leaves: the dialog for a subnet with the suggestion for the address, and
-- the form as it was filled.
pub record IsOffered (ip : Text) (s t : RecordsPage) : Type 0 where
  pub offered : t.quick_subnet_open ≡ true
  pub suggestion : t.quick_form.cidr ≡ suggest_cidr ip
  pub kept_form : t.form ≡ s.form
  pub still_open : t.modal_open ≡ s.modal_open
  pub ready : t.submitting ≡ false
  pub quiet : t.notices ≡ s.notices

offered_lem :
    (ip : Text) (s : RecordsPage)
    → s.form.ip_address ≡ some ip
    → is_empty ip ≡ false
    → IsOffered ip s (record (open_quick_subnet s) { submitting = false })
unfolding open_quick_subnet
offered_lem ip s has_ip filled = record {
  offered = refl;
  suggestion = ap quick_cidr has_ip ∙ rw filled refl;
  kept_form = refl;
  still_open = refl;
  ready = refl;
  quiet = refl;
}

module _ (lower : Text → Text) where
  -- The `catch` of `handleSubmit`.
  unfoldable pub refused : Text → RecordsPage → RecordsPage
  unfolding open_quick_subnet
  refused detail s =
      if contains (lower detail) (text "not within")
      then open_quick_subnet s
      else notify (failed detail) s

  -- `handleSubmit` after its request; the Boolean says that the list is fetched again.
  unfoldable pub settle_submit : Response (Unit {0}) → RecordsPage → RecordsPage × Bool
  unfolding refused
  settle_submit (resolved _) s = (
    record s {
      notices = succeeded (done_text s.editing_record) ∷ s.notices;
      modal_open = false;
      form = blank_form;
      submitting = false;
    },
    true,
  )
  settle_submit (rejected e) s =
      let told : RecordsPage = refused (error_text e (text "Operation failed")) s in
      (record told { submitting = false }, false)

  -- `handleQuickCreateSubnet` up to its request, and after it and the fetch of the subnets.
  unfoldable pub start_quick : RecordsPage → RecordsPage
  start_quick s = record s { quick_subnet_submitting = true }

  unfoldable pub settle_quick : Response Subnet → RecordsPage → RecordsPage
  settle_quick (resolved subnet) s = record s {
    form = record s.form { subnet_id = some subnet.id };
    quick_subnet_open = false;
    quick_form = blank_quick;
    quick_subnet_submitting = false;
    notices = succeeded (text "Subnet " ++ subnet.cidr ++ text " created and selected") ∷ s.notices;
  }
  settle_quick (rejected e) s =
      let told : RecordsPage = notify (failed (error_text e (text "Failed to create subnet"))) s in
      record told { quick_subnet_submitting = false }

  -- When the server refuses a new record since its address is not within the subnet, the page
  -- offers to create the suggested network and keeps the form; and once that network is created,
  -- the form sends the same record in the new subnet.
  pub settle_submit-settle_quick :
      (ip : Text) (os : OsType) (env : Environment) (e : ApiError) (subnet : Subnet)
      (s : RecordsPage)
      → s.editing_record ≡ none
      → s.form.ip_address ≡ some ip
      → is_empty ip ≡ false
      → s.form.os_type ≡ some os
      → s.form.environment ≡ some env
      → contains (lower (error_text e (text "Operation failed"))) (text "not within") ≡ true
      → IsOffered ip s (settle_submit (rejected e) s).0
        × ((start_submit (settle_quick (resolved subnet) (settle_submit (rejected e) s).0)).1
            ≡ some (create (create_of ip os subnet.id env s.form)))
  unfolding settle_submit refused settle_quick start_submit open_quick_subnet
  settle_submit-settle_quick ip os env e subnet s new has_ip filled has_os has_env outside =
      rw outside (offered_lem ip s has_ip filled, rw new (rw has_ip (rw has_os (rw has_env refl))))
