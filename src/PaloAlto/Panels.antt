-- ===== src/PaloAlto/Panels.antt =====
-- frontend/src/pages/PaloAltoCheck/PaloAltoCheckPage.tsx: the panels of a result and of the recent
-- checks. The difference that dayjs gives, in seconds, is a parameter.
use iop.Base.{
  ℕ, ◌+◌, ◌/◌, Bool, true, false, not, ◌&&◌, List, [], ◌∷◌, ◌++◌, map, Option, none, some, Text,
  text, text_eq, ◌==◌, nat_beq, ltb, if◌then◌else◌,
}
use iop.Api.{Response, resolved, rejected, error_text}
use iop.PaloAlto.Bulk.{detail_or_message}
use iop.Text.Number.{decimal}
use iop.Text.Search.{is_empty}
use iop.Types.PaloAlto.{
  PaloAltoSaveResult, PaloAltoCheckLogEntry, PaloAltoTrafficLogEntry, PaloAltoTrafficLogResult,
  PingResult,
}

-- `notification` with its message and description.
pub data PanelNotice : Type 0 where
  succeeded warned : Text → Text → PanelNotice
  failed : Text → Option Text → PanelNotice

-- The other systems in which a result is looked up.
pub data CheckSource : Type 0 where
  zabbix device42 : CheckSource

pub record ResultPanel : Type 0 where
  pub cross_checking : Option CheckSource
  pub saving : Bool
  pub notices : List PanelNotice

abbrev pub check_source_name : CheckSource → Text
check_source_name zabbix = text "Zabbix"
check_source_name device42 = text "Device42"

abbrev pub or_unknown : Option Text → Text
or_unknown none = text "unknown"
or_unknown (some d) = d

abbrev pub absent_text : CheckSource → Text
absent_text zabbix = text "Zabbix has no host on this address, or it's currently reporting down."
absent_text device42 = text "Device42 has no device assigned to this address."

-- The notice of `runCrossCheck`.
unfoldable pub cross_notice : Text → CheckSource → Response PingResult → PanelNotice
cross_notice ip source (resolved r) =
    if r.reachable
    then succeeded (ip ++ text " found in " ++ check_source_name source)
        (text "Device: " ++ or_unknown r.device_name)
    else warned (text "No " ++ check_source_name source ++ text " record for " ++ ip)
        (absent_text source)
cross_notice ip source (rejected e) = failed (text "Check failed for " ++ ip) (detail_or_message e)

-- `runCrossCheck` up to its request, and after it.
unfoldable pub start_cross_check : CheckSource → ResultPanel → ResultPanel
start_cross_check source s = record s { cross_checking = some source }

unfoldable pub settle_cross_check :
    Text → CheckSource → Response PingResult → ResultPanel → ResultPanel
unfolding cross_notice
settle_cross_check ip source a s = record s {
  notices = s.notices ++ cross_notice ip source a ∷ [];
  cross_checking = none;
}

abbrev pub hostname_suffix : Option Text → Text
hostname_suffix none = []
hostname_suffix (some h) = if is_empty h then [] else text " · Hostname " ++ h

unfoldable pub save_notice : Text → Response PaloAltoSaveResult → PanelNotice
save_notice ip (resolved r) =
    succeeded
      (ip
        ++ (if r.action == text "created"
            then text " added to IP Records"
            else text " updated in IP Records"))
      (text "Subnet "
        ++ r.subnet_cidr
        ++ text " · Status "
        ++ r.status
        ++ hostname_suffix r.hostname)
save_notice ip (rejected e) = failed (text "Could not save " ++ ip) (detail_or_message e)

-- `handleSave` of `SaveToRecordsButton` up to its request, and after it.
unfoldable pub start_save_record : ResultPanel → ResultPanel
start_save_record s = record s { saving = true }

unfoldable pub settle_save_record : Text → Response PaloAltoSaveResult → ResultPanel → ResultPanel
unfolding save_notice
settle_save_record ip a s = record s {
  notices = s.notices ++ save_notice ip a ∷ [];
  saving = false;
}

-- `TrafficLogPanel`
pub record TrafficLogPanel : Type 0 where
  pub loading : Bool
  pub result : Option PaloAltoTrafficLogResult
  pub error_msg : Option Text

unfoldable pub start_traffic_log : TrafficLogPanel → TrafficLogPanel
start_traffic_log s = record s { loading = true; error_msg = none }

unfoldable pub settle_traffic_log :
    Response PaloAltoTrafficLogResult → TrafficLogPanel → TrafficLogPanel
settle_traffic_log (resolved r) s = record s { result = some r; loading = false }
settle_traffic_log (rejected e) s = record s {
  error_msg = some (error_text e (text "Failed to load traffic log"));
  loading = false;
}

abbrev pub is_missing : Option PaloAltoTrafficLogResult → Bool
is_missing none = true
is_missing (some a) = false

-- `!errorMsg`
abbrev pub no_text : Option Text → Bool
no_text none = true
no_text (some m) = is_empty m

-- Only the button that loads the log is shown.
unfoldable pub shows_button : TrafficLogPanel → Bool
shows_button s = is_missing s.result && not s.loading && no_text s.error_msg

-- `RecentChecksPanel`
pub record RecentChecksPanel : Type 0 where
  pub entries : List PaloAltoCheckLogEntry
  pub loading : Bool
  pub error_msg : Option Text

unfoldable pub start_recent_checks : RecentChecksPanel → RecentChecksPanel
start_recent_checks s = record s { loading = true; error_msg = none }

unfoldable pub settle_recent_checks :
    Response (List PaloAltoCheckLogEntry) → RecentChecksPanel → RecentChecksPanel
settle_recent_checks (resolved entries) s = record s { entries = entries; loading = false }
settle_recent_checks (rejected e) s = record s {
  error_msg = some (error_text e (text "Failed to load history"));
  loading = false;
}

-- `time_generated.replace(/\//g, "-")`
unfoldable pub with_dashes : Text → Text
with_dashes t = map (λ c. if nat_beq c 47 then 45 else c) t

-- `${n} ${unit}${n === 1 ? "" : "s"}`
abbrev pub counted_unit : ℕ → Text → Text
counted_unit n unit = decimal n ++ unit ++ (if nat_beq n 1 then [] else text "s")

-- `Math.round` of a quotient by an even number.
abbrev pub rounded : ℕ → ℕ → ℕ
rounded n half = (n + half) / (half + half)

unfoldable pub span_text : ℕ → Text
span_text seconds =
    let minutes = rounded seconds 30 in
    let hours = rounded minutes 30 in
    if ltb seconds 60
    then counted_unit seconds (text " second")
    else if ltb minutes 60
    then counted_unit minutes (text " minute")
    else if ltb hours 24
    then counted_unit hours (text " hour")
    else counted_unit (rounded hours 12) (text " day")

abbrev pub last_entry :
    PaloAltoTrafficLogEntry → List PaloAltoTrafficLogEntry → PaloAltoTrafficLogEntry
last_entry e [] = e
last_entry e (f ∷ fs) = last_entry f fs

-- `formatTrafficSpan`
unfoldable pub format_traffic_span : (Text → Text → ℕ) → List PaloAltoTrafficLogEntry → Option Text
unfolding span_text with_dashes
format_traffic_span apart [] = none
format_traffic_span apart (e ∷ []) = none
format_traffic_span apart (e ∷ f ∷ fs) = some (
    span_text (apart (with_dashes e.time_generated) (with_dashes (last_entry f fs).time_generated)))
