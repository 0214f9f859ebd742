-- ===== src/AuditLog.antt =====
-- frontend/src/pages/AuditLog/AuditLogPage.tsx over frontend/src/types/auditLog.ts. The entries, the
-- days of dayjs and their texts are parameters; `calls` lists the filters of the requests sent.
pub mod Asked
use iop.Base.{
  ℕ, Bool, true, false, ◌&&◌, List, [], ◌∷◌, ◌++◌, Option, none, some, Text, text, text_beq,
  nat_beq, if◌then◌else◌,
}
use iop.Api.{Response, resolved, rejected, error_text}
use iop.Text.Search.{is_empty}
use iop.Types.Record.{PaginatedResponse}

abbrev pub audit_page_size : ℕ
audit_page_size = 25

pub data AuditAction : Type 0 where
  create update delete reserve release login logout login_failed password_reset : AuditAction

pub data ResourceType : Type 0 where
  ip_record subnet user auth : ResourceType

pub record AuditLogFilters : Type 0 where
  pub username : Option Text
  pub action : Option AuditAction
  pub resource_type : Option ResourceType
  pub date_from : Option Text
  pub date_to : Option Text
  pub page : ℕ
  pub page_size : ℕ

pub record AuditLogPage (Log Day : Type 0) : Type 0 where
  pub logs : List Log
  pub total : ℕ
  pub current_page : ℕ
  pub loading : Bool
  pub username_filter : Text
  pub action_filter : Option AuditAction
  pub resource_type_filter : Option ResourceType
  pub date_range : Option (Option Day × Option Day)
  pub errors : List Text
  pub calls : List AuditLogFilters

-- `toISOString` of a day, and of its end.
module _ (Log Day : Type 0) (iso end_iso : Day → Text) where
  abbrev pub from_day : Option (Option Day × Option Day) → Option Text
  from_day none = none
  from_day (some (none, b)) = none
  from_day (some (some d, b)) = some (iso d)

  abbrev pub to_day : Option (Option Day × Option Day) → Option Text
  to_day none = none
  to_day (some (a, none)) = none
  to_day (some (a, some d)) = some (end_iso d)

  unfoldable pub build_filters : AuditLogPage Log Day → AuditLogFilters
  build_filters s = record {
    username = if is_empty s.username_filter then none else some s.username_filter;
    action = s.action_filter;
    resource_type = s.resource_type_filter;
    date_from = from_day s.date_range;
    date_to = to_day s.date_range;
    page = s.current_page;
    page_size = audit_page_size;
  }

  -- `fetchLogs` up to its request, and after it.
  unfoldable pub fetch_logs : AuditLogPage Log Day → AuditLogPage Log Day
  fetch_logs s = record s { loading = true; calls = s.calls ++ build_filters s ∷ [] }

  unfoldable pub settle_logs :
      Response (PaginatedResponse Log) → AuditLogPage Log Day → AuditLogPage Log Day
  settle_logs (resolved res) s = record s { logs = res.items; total = res.total; loading = false }
  settle_logs (rejected e) s = record s {
    errors = s.errors ++ error_text e (text "Failed to load audit logs") ∷ [];
    loading = false;
  }

  -- The handlers, each with the effect that fetches where what `buildFilters` reads has changed. A
  -- new selection of an action, a resource type or a range of days counts as a change.
  unfoldable pub handle_audit_page : ℕ → AuditLogPage Log Day → AuditLogPage Log Day
  unfolding fetch_logs
  handle_audit_page p s =
      if nat_beq s.current_page p then s else fetch_logs (record s { current_page = p })

  abbrev pub first_or : Option ℕ → ℕ
  first_or none = 1
  first_or (some p) = p

  unfoldable pub handle_audit_table : Option ℕ → AuditLogPage Log Day → AuditLogPage Log Day
  unfolding handle_audit_page
  handle_audit_table current s = handle_audit_page (first_or current) s

  unfoldable pub handle_search : AuditLogPage Log Day → AuditLogPage Log Day
  unfolding handle_audit_page
  handle_search s = handle_audit_page 1 s

  unfoldable pub type_username : Text → AuditLogPage Log Day → AuditLogPage Log Day
  unfolding fetch_logs
  type_username q s =
      if text_beq s.username_filter q then s else fetch_logs (record s { username_filter = q })

  unfoldable pub choose_action : Option AuditAction → AuditLogPage Log Day → AuditLogPage Log Day
  unfolding fetch_logs
  choose_action a s = fetch_logs (record s { action_filter = a })

  unfoldable pub choose_resource : Option ResourceType → AuditLogPage Log Day → AuditLogPage Log Day
  unfolding fetch_logs
  choose_resource r s = fetch_logs (record s { resource_type_filter = r })

  unfoldable pub choose_days :
      Option (Option Day × Option Day) → AuditLogPage Log Day → AuditLogPage Log Day
  unfolding fetch_logs
  choose_days d s = fetch_logs (record s { date_range = d })
