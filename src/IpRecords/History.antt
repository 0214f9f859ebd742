-- ===== src/IpRecords/History.antt =====
-- frontend/src/pages/IPRecords/IPRecordHistoryDrawer.tsx: the changes that a log entry shows, and
-- the fetch of the history. `JSON.stringify` is a parameter; it gives undefined for undefined.
pub mod Changed
mod Tests
use iop.Base.{
  Bool, true, false, not, List, [], ◌∷◌, ◌++◌, map, Option, none, some, Text, text, text_eq, ◌==◌,
  dedup, filter, if◌then◌else◌,
}
use iop.Api.{Response, resolved, rejected, error_text}

-- An object, as its properties.
abbrev pub Fields : Type 0 → Type 0
Fields V = List (Text × V)

abbrev pub same_json : Option Text → Option Text → Bool
same_json none none = true
same_json none (some t) = false
same_json (some s) none = false
same_json (some s) (some t) = s == t

module _ {V : Type 0} where
  -- `before ?? {}`
  abbrev pub or_no_fields : Option (Fields V) → Fields V
  or_no_fields none = []
  or_no_fields (some o) = o

  -- `o[k]`
  unfoldable pub field_of : Fields V → Text → Option V
  field_of [] k = none
  field_of ((j, v) ∷ o) k = if j == k then some v else field_of o k

  -- `Object.keys(o)`
  abbrev pub keys_of : Fields V → List Text
  keys_of o = map (λ p. p.0) o

module _ {V : Type 0} (stringify : Option V → Option Text) where
  abbrev pub is_changed : Fields V → Fields V → Text → Bool
  is_changed before after k =
      not (same_json (stringify (field_of before k)) (stringify (field_of after k)))

  unfoldable pub changed : Option (Fields V) → Option (Fields V) → List Text
  unfolding field_of
  changed before after =
      let b = or_no_fields before in
      let a = or_no_fields after in filter (is_changed b a) (dedup (keys_of b ++ keys_of a))

pub record HistoryState (Log : Type 0) : Type 0 where
  pub logs : List Log
  pub loading : Bool
  pub notices : List Text

-- `fetchHistory` up to its request, and after it; `error` stands for `message.error`.
unfoldable pub start_history : {Log : Type 0} → HistoryState Log → HistoryState Log
start_history s = record s { loading = true }

unfoldable pub settle_history :
    {Log : Type 0} → Response (List Log) → HistoryState Log → HistoryState Log
settle_history (resolved logs) s = record s { logs = logs; loading = false }
settle_history (rejected e) s = record s {
  notices = error_text e (text "Failed to load history") ∷ s.notices;
  loading = false;
}

-- The effect where no record is chosen.
unfoldable pub close_history : {Log : Type 0} → HistoryState Log → HistoryState Log
close_history s = record s { logs = [] }
