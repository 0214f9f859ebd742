-- ===== src/IpRecords/Page.antt =====
-- frontend/src/pages/IPRecords/IPRecordsPage.tsx: the state of the page, its list and its filters.
use iop.Base.{ℕ, Bool, true, false, List, [], ◌∷◌, Option, none, some, Text, text, if◌then◌else◌}
use iop.Types.Record.{IpRecord, IpRecordFilters, PaginatedResponse, OsType, IpStatus, Environment}
use iop.Types.Subnet.{SubnetDetail, IpVersion}
use iop.Api.{Response, resolved, rejected, error_text}
use iop.Text.Search.{is_empty}

-- The values of the form, as far as they are set.
pub record RecordForm : Type 0 where
  pub ip_address : Option Text
  pub hostname : Option Text
  pub os_type : Option OsType
  pub subnet_id : Option Text
  pub status : Option IpStatus
  pub environment : Option Environment
  pub owner : Option Text
  pub description : Option Text

abbrev pub blank_form : RecordForm
blank_form = record {
  ip_address = none;
  hostname = none;
  os_type = none;
  subnet_id = none;
  status = none;
  environment = none;
  owner = none;
  description = none;
}

-- The values of the form of a quick subnet.
pub record QuickForm : Type 0 where
  pub cidr : Text
  pub name : Text
  pub environment : Option Environment
  pub ip_version : Option IpVersion

abbrev pub blank_quick : QuickForm
blank_quick = record { cidr = []; name = []; environment = none; ip_version = none }

pub data Notice : Type 0 where
  succeeded : Text → Notice
  failed : Text → Notice

pub record RecordsPage : Type 0 where
  pub records : List IpRecord
  pub total : ℕ
  pub current_page : ℕ
  pub loading : Bool
  pub subnets : List SubnetDetail
  pub filters : IpRecordFilters
  pub search_text : Text
  pub modal_open : Bool
  pub editing_record : Option IpRecord
  pub submitting : Bool
  pub selected_row_keys : List Text
  pub bulk_modal_open : Bool
  pub bulk_submitting : Bool
  pub quick_subnet_open : Bool
  pub quick_subnet_submitting : Bool
  pub form : RecordForm
  pub quick_form : QuickForm
  pub notices : List Notice

abbrev pub notify : Notice → RecordsPage → RecordsPage
notify n s = record s { notices = n ∷ s.notices }

-- `value || undefined`
abbrev pub or_undefined : Option Text → Option Text
or_undefined none = none
or_undefined (some t) = if is_empty t then none else some t

-- `fetchRecords` up to its request, and the query of the request.
unfoldable pub start_fetch : RecordsPage → RecordsPage × IpRecordFilters
start_fetch s = (
  record s { loading = true },
  record s.filters { page = some s.current_page; page_size = some 20 },
)

unfoldable pub settle_fetch : Response (PaginatedResponse IpRecord) → RecordsPage → RecordsPage
settle_fetch (resolved page) s = record s {
  records = page.items;
  total = page.total;
  loading = false;
}
settle_fetch (rejected e) s =
    let warned : RecordsPage =
      notify (failed (error_text e (text "Failed to load IP records"))) s in
    record warned { loading = false }

unfoldable pub apply_search : RecordsPage → RecordsPage
apply_search s = record s {
  filters = record s.filters { search = or_undefined (some s.search_text) };
  current_page = 1;
}

-- A field of the filters with its new value; the values of the enumerations are not empty.
pub data FilterChange : Type 0 where
  by_subnet by_owner : Option Text → FilterChange
  by_status : Option IpStatus → FilterChange
  by_os_type : Option OsType → FilterChange
  by_environment : Option Environment → FilterChange

abbrev pub change_filter : FilterChange → IpRecordFilters → IpRecordFilters
change_filter (by_subnet v) f = record f { subnet_id = or_undefined v }
change_filter (by_owner v) f = record f { owner = or_undefined v }
change_filter (by_status v) f = record f { status = v }
change_filter (by_os_type v) f = record f { os_type = v }
change_filter (by_environment v) f = record f { environment = v }

unfoldable pub handle_filter_change : FilterChange → RecordsPage → RecordsPage
handle_filter_change c s = record s { filters = change_filter c s.filters; current_page = 1 }

abbrev pub page_or_first : Option ℕ → ℕ
page_or_first none = 1
page_or_first (some p) = p

unfoldable pub handle_table_change : Option ℕ → RecordsPage → RecordsPage
handle_table_change current s = record s { current_page = page_or_first current }

unfoldable pub open_create : RecordsPage → RecordsPage
open_create s = record s { editing_record = none; form = blank_form; modal_open = true }

abbrev pub form_of : IpRecord → RecordForm
form_of r = record {
  ip_address = some r.ip_address;
  hostname = r.hostname;
  os_type = some r.os_type;
  subnet_id = some r.subnet_id;
  status = some r.status;
  environment = some r.environment;
  owner = r.owner;
  description = r.description;
}

unfoldable pub open_edit : IpRecord → RecordsPage → RecordsPage
open_edit r s = record s { editing_record = some r; form = form_of r; modal_open = true }

-- The link of the unused addresses' page: the subnet and the address that it prefills.
unfoldable pub open_linked : Option Text → Option Text → RecordsPage → RecordsPage
open_linked subnet ip s = record s {
  editing_record = none;
  form = record blank_form { subnet_id = or_undefined subnet; ip_address = or_undefined ip };
  modal_open = true;
}

-- `fetchSubnets`, whose failure is not looked at.
unfoldable pub settle_subnets :
    Response (PaginatedResponse SubnetDetail) → RecordsPage → RecordsPage
settle_subnets (resolved page) s = record s { subnets = page.items }
settle_subnets (rejected e) s = s
