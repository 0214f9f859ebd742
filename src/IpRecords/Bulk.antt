-- ===== src/IpRecords/Bulk.antt =====
-- frontend/src/pages/IPRecords/IPRecordsPage.tsx: the handlers of one record, and those of the
-- selected records.
use iop.Base.{
  ◌≡◌, ◌≢◌, suc, refl, Bool, true, false, ◌&&◌, List, [], ◌∷◌, ◌++◌, Option, none, some, Text, text,
  length, if◌then◌else◌,
}
use iop.Types.Record.{OsType, Environment}
use iop.Api.{Response, resolved, rejected, error_text}
use iop.Text.Number.{decimal}
use iop.IpRecords.Page.{RecordsPage, succeeded, failed, notify, or_undefined}

pub data RecordAction : Type 0 where
  delete reserve release : RecordAction

abbrev pub action_done : RecordAction → Text
action_done delete = text "IP record deleted"
action_done reserve = text "IP reserved"
action_done release = text "IP released"

abbrev pub action_failed : RecordAction → Text
action_failed delete = text "Delete failed"
action_failed reserve = text "Reserve failed"
action_failed release = text "Release failed"

-- `handleDelete`, `handleReserve` and `handleRelease` after their request; the Boolean says that
-- the list is fetched again.
unfoldable pub settle_action : RecordAction → Response (Unit {0}) → RecordsPage → RecordsPage × Bool
settle_action a (resolved _) s = (notify (succeeded (action_done a)) s, true)
settle_action a (rejected e) s = (notify (failed (error_text e (action_failed a))) s, false)

pub record BulkUpdateFields : Type 0 where
  pub environment : Option Environment
  pub owner : Option Text
  pub os_type : Option OsType

pub data BulkAction : Type 0 where
  bulk_reserve bulk_release : BulkAction
  bulk_update : BulkUpdateFields → BulkAction

-- The fields that are sent: an empty owner is left out.
unfoldable pub sent_fields : BulkUpdateFields → BulkUpdateFields
sent_fields v = record {
  environment = v.environment;
  owner = or_undefined v.owner;
  os_type = v.os_type;
}

abbrev pub sent_action : BulkAction → BulkAction
sent_action bulk_reserve = bulk_reserve
sent_action bulk_release = bulk_release
sent_action (bulk_update v) = bulk_update (sent_fields v)

abbrev pub is_update : BulkAction → Bool
is_update bulk_reserve = false
is_update bulk_release = false
is_update (bulk_update v) = true

-- `handleBulkReserve`, `handleBulkRelease` and `handleBulkUpdate` up to their request, which is
-- for the selected records.
unfoldable pub start_bulk : BulkAction → RecordsPage → RecordsPage × (List Text × BulkAction)
unfolding sent_fields
start_bulk a s = (
  if is_update a then record s { bulk_submitting = true } else s,
  (s.selected_row_keys, sent_action a),
)

abbrev pub bulk_done : BulkAction → Text
bulk_done bulk_reserve = text "Reserved "
bulk_done bulk_release = text "Released "
bulk_done (bulk_update v) = text "Updated "

abbrev pub bulk_failed : BulkAction → Text
bulk_failed bulk_reserve = text "Bulk reserve failed"
bulk_failed bulk_release = text "Bulk release failed"
bulk_failed (bulk_update v) = text "Bulk update failed"

abbrev pub end_bulk : BulkAction → RecordsPage → RecordsPage
end_bulk bulk_reserve s = s
end_bulk bulk_release s = s
end_bulk (bulk_update v) s = record s { bulk_submitting = false }

abbrev pub close_bulk : BulkAction → RecordsPage → RecordsPage
close_bulk bulk_reserve s = s
close_bulk bulk_release s = s
close_bulk (bulk_update v) s = record s { bulk_modal_open = false }

-- The three handlers after their request for `ids`.
unfoldable pub settle_bulk :
    BulkAction → List Text → Response (Unit {0}) → RecordsPage → RecordsPage × Bool
settle_bulk a ids (resolved _) s =
    let told : RecordsPage =
      notify (succeeded (bulk_done a ++ decimal (length ids) ++ text " records"))
        (close_bulk a s) in
    (end_bulk a (record told { selected_row_keys = [] }), true)
settle_bulk a ids (rejected e) s =
    (end_bulk a (notify (failed (error_text e (bulk_failed a))) s), false)

abbrev pub is_resolved : Response (Unit {0}) → Bool
is_resolved (resolved _) = true
is_resolved (rejected e) = false

abbrev pub owner_of : BulkAction → Option Text
owner_of bulk_reserve = none
owner_of bulk_release = none
owner_of (bulk_update v) = v.owner

or_undefined-filled : (o : Option Text) → or_undefined o ≢ some []
or_undefined-filled none = λ e. cc e
or_undefined-filled (some []) = λ e. cc e
or_undefined-filled (some (c ∷ cs)) = λ e. cc e

-- A bulk action is sent for the selected records and with no empty owner. Its answer ends the
-- submit and shows one notice; the selection is cleared and the list fetched again exactly if it
-- succeeded, so that after a failure the same records can be tried again; and the dialog is closed
-- exactly by an update that succeeded.
pub settle_bulk-start_bulk :
    (a : BulkAction) (r : Response (Unit {0})) (s : RecordsPage)
    → let sent = start_bulk a s in
      let ended = settle_bulk a sent.1.0 r sent.0 in
      (sent.1.0 ≡ s.selected_row_keys)
      × (ended.0.selected_row_keys ≡ (if is_resolved r then [] else s.selected_row_keys))
      × (ended.1 ≡ is_resolved r)
      × (length ended.0.notices ≡ suc (length s.notices))
      × (ended.0.bulk_submitting ≡ (if is_update a then false else s.bulk_submitting))
      × (ended.0.bulk_modal_open
          ≡ (if is_update a && is_resolved r then false else s.bulk_modal_open))
      × (owner_of sent.1.1 ≢ some [])
unfolding start_bulk settle_bulk
settle_bulk-start_bulk bulk_reserve (resolved x) s = (refl, refl, refl, refl, refl, refl, λ e. cc e)
settle_bulk-start_bulk bulk_reserve (rejected x) s = (refl, refl, refl, refl, refl, refl, λ e. cc e)
settle_bulk-start_bulk bulk_release (resolved x) s = (refl, refl, refl, refl, refl, refl, λ e. cc e)
settle_bulk-start_bulk bulk_release (rejected x) s = (refl, refl, refl, refl, refl, refl, λ e. cc e)
settle_bulk-start_bulk (bulk_update w) (resolved x) s =
    (refl, refl, refl, refl, refl, refl, or_undefined-filled w.owner)
settle_bulk-start_bulk (bulk_update w) (rejected x) s =
    (refl, refl, refl, refl, refl, refl, or_undefined-filled w.owner)
