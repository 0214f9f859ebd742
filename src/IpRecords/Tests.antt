-- ===== src/IpRecords/Tests.antt =====
-- Tests and witnesses for the page of IP records.
use iop.Base.{◌≡◌, refl, true, false, [], ◌∷◌, none, some, Text, text}
use iop.Types.Record.{linux, production, staging}
use iop.Types.Subnet.{Subnet}
use iop.Types.Sample.{subnet_at}
use iop.Api.{ApiError, error_text, resolved, rejected}
use iop.Text.Search.{contains, starts_with}
use iop.Text.Split.{split, join}
use iop.IpRecords.{is_ipv6, suggest_cidr}
use iop.IpRecords.Page.{RecordsPage, RecordForm, blank_form, blank_quick}
use iop.IpRecords.Submit.{
  settle_submit, settle_quick, start_submit, settle_submit-settle_quick, IsOffered, create,
  create_of,
}
use iop.IpRecords.Bulk.{BulkUpdateFields}

suggests_v6 : suggest_cidr (text "2001:db8::1") ≡ text "2001:db8:0:1::/64"
unfolding suggest_cidr is_ipv6 contains starts_with split join
suggests_v6 = refl

abbrev filled_form : RecordForm
filled_form = record blank_form {
  ip_address = some (text "10.9.8.7");
  os_type = some linux;
  subnet_id = some (text "w");
  environment = some staging;
  owner = some (text "net");
}

abbrev page : RecordsPage
page = record {
  records = [];
  total = 0;
  current_page = 2;
  loading = false;
  subnets = [];
  filters = record {
    subnet_id = none;
    status = none;
    os_type = none;
    environment = none;
    owner = none;
    search = none;
    page = none;
    page_size = none;
  };
  search_text = [];
  modal_open = true;
  editing_record = none;
  submitting = true;
  selected_row_keys = text "a" ∷ text "b" ∷ [];
  bulk_modal_open = true;
  bulk_submitting = false;
  quick_subnet_open = false;
  quick_subnet_submitting = false;
  form = filled_form;
  quick_form = blank_quick;
  notices = [];
}

abbrev same_case : Text → Text
same_case t = t

abbrev outside : ApiError
outside = record { detail = some (text "IP is not within subnet"); message = none }

abbrev new_subnet : Subnet
new_subnet = (subnet_at (text "n") (text "10.9.8.0/24")).subnet

outside-contains :
    contains (same_case (error_text outside (text "Operation failed"))) (text "not within") ≡ true
unfolding contains starts_with
outside-contains = refl

settle_submit-settle_quick_example :
    IsOffered (text "10.9.8.7") page (settle_submit same_case (rejected outside) page).0
    × ((start_submit (
          settle_quick same_case
            (resolved new_subnet)
            (settle_submit same_case (rejected outside) page).0)).1
        ≡ some (create (create_of (text "10.9.8.7") linux (text "n") staging filled_form)))
settle_submit-settle_quick_example =
    settle_submit-settle_quick same_case (text "10.9.8.7") linux staging outside new_subnet page
      refl refl refl refl refl outside-contains

abbrev fields : BulkUpdateFields
fields = record { environment = some production; owner = some []; os_type = none }
