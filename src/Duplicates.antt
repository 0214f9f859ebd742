-- ===== src/Duplicates.antt =====
-- frontend/src/components/common/DuplicatesModal.tsx over frontend/src/api/ipRecords.ts
pub mod Flattened
mod Tests
use iop.Base.{
  ℕ, Bool, true, false, List, [], ◌∷◌, ◌++◌, map, Option, none, some, Text, text, text_eq, includes,
  if◌then◌else◌,
}
use iop.Api.{ApiError, Response, resolved, rejected, error_text}

pub record DuplicateRecordRef : Type 0 where
  pub id : Text
  pub ip_address : Text
  pub hostname : Option Text
  pub status : Text

pub record DuplicateGroup : Type 0 where
  pub value : Text
  pub count : ℕ
  pub records : List DuplicateRecordRef

pub record DuplicatesResult : Type 0 where
  pub duplicate_ips : List DuplicateGroup
  pub duplicate_hostnames : List DuplicateGroup

-- `ids.add(id)` on a set that lists its elements in the order in which they were added.
abbrev pub add_id : List Text → Text → List Text
add_id ids id = if includes ids id then ids else ids ++ id ∷ []

-- The inner loop, over the records of a group.
unfoldable pub add_records : List Text → List DuplicateRecordRef → List Text
add_records ids [] = ids
add_records ids (r ∷ rs) = add_records (add_id ids r.id) rs

-- The outer loop.
unfoldable pub add_groups : List Text → List DuplicateGroup → List Text
unfolding add_records
add_groups ids [] = ids
add_groups ids (g ∷ gs) = add_groups (add_records ids g.records) gs

unfoldable pub flatten_ids : List DuplicateGroup → List Text
unfolding add_groups
flatten_ids groups = add_groups [] groups

pub record DuplicatesState : Type 0 where
  pub loading : Bool
  pub error : Option Text
  pub data_shown : Option DuplicatesResult
  pub bulk_scan_ids : Option (List Text)

-- `fetchDuplicates` up to its request, and after it.
unfoldable pub start_duplicates : DuplicatesState → DuplicatesState
start_duplicates s = record s { loading = true; error = none }

unfoldable pub settle_duplicates : Response DuplicatesResult → DuplicatesState → DuplicatesState
settle_duplicates (resolved d) s = record s { data_shown = some d; loading = false }
settle_duplicates (rejected e) s = record s {
  error = some (error_text e (text "Failed to load duplicates"));
  loading = false;
}

-- The button of a list of groups, and the end of the scan.
unfoldable pub bulk_scan_all : List DuplicateGroup → DuplicatesState → DuplicatesState
unfolding flatten_ids
bulk_scan_all groups s = record s { bulk_scan_ids = some (flatten_ids groups) }

unfoldable pub close_bulk_scan : DuplicatesState → DuplicatesState
close_bulk_scan s = record s { bulk_scan_ids = none }
