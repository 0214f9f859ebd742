-- ===== src/UnusedIps.antt =====
-- frontend/src/pages/UnusedIPs/UnusedIPsPage.tsx: the subnets with the addresses that no record
-- uses. `toLowerCase` is the parameter `lower`.
pub mod Detail
pub mod Fetch
pub mod Rows
mod Tests
use iop.Base.{
  ℕ, zero, suc, ◌+◌, ◌-◌, ◌*◌, Bool, true, false, not, ◌&&◌, ◌||◌, List, [], ◌∷◌, ◌++◌, map, Option,
  none, some, Text, text, length, leb, ltb, text_beq, take, drop, filter, if◌then◌else◌,
}
use iop.Types.Record.{PaginatedResponse}
use iop.Types.Subnet.{SubnetDetail}
use iop.Api.{Response, resolved, rejected, ApiError, error_text}
use iop.Text.Search.{contains, is_empty}
use iop.Text.Trim.{trim}

abbrev pub subnet_fetch_page_size : ℕ
subnet_fetch_page_size = 200

-- `all.length >= res.data.total || res.data.items.length === 0`
abbrev pub is_last : List SubnetDetail → PaginatedResponse SubnetDetail → Bool
is_last all res = leb res.total (length all) || leb (length res.items) 0

-- The loop of `fetchAllSubnets`, with fuel for its rounds; `none` where the fuel runs out.
unfoldable pub fetch_from :
    (ℕ → Response (PaginatedResponse SubnetDetail))
    → ℕ
    → ℕ
    → List SubnetDetail
    → Option (Response (List SubnetDetail))
fetch_from list zero page all = none
fetch_from list (suc fuel) page all = elim (list page) [
  | rejected e ↦ some (rejected e)
  | resolved res ↦
      let next = fetch_from list fuel (page + 1) (all ++ res.items) in
      if is_last (all ++ res.items) res then some (resolved (all ++ res.items)) else next
]

unfoldable pub fetch_all_subnets :
    (ℕ → Response (PaginatedResponse SubnetDetail)) → ℕ → Option (Response (List SubnetDetail))
unfolding fetch_from
fetch_all_subnets list fuel = fetch_from list fuel 1 []

pub record SubnetRow : Type 0 where
  pub detail : SubnetDetail
  pub open detail use *
  pub unused : ℕ

-- `Math.max(0, s.total_ips - s.used_ips - s.free_ips - s.reserved_ips)`
unfoldable pub row_of : SubnetDetail → SubnetRow
row_of s = record { detail = s; unused = s.total_ips - (s.used_ips + s.free_ips + s.reserved_ips) }

-- A stable sort by `b.unused - a.unused`: a row goes before the first that has no more.
unfoldable pub insert_row : SubnetRow → List SubnetRow → List SubnetRow
insert_row r [] = r ∷ []
insert_row r (s ∷ rs) = if leb s.unused r.unused then r ∷ s ∷ rs else s ∷ insert_row r rs

unfoldable pub sort_rows : List SubnetRow → List SubnetRow
unfolding insert_row
sort_rows [] = []
sort_rows (r ∷ rs) = insert_row r (sort_rows rs)

unfoldable pub total_unused : List SubnetRow → ℕ
total_unused [] = 0
total_unused (r ∷ rs) = r.unused + total_unused rs

unfoldable pub subnets_with_room : List SubnetRow → ℕ
subnets_with_room rows = length (filter (λ r. ltb 0 r.unused) rows)

unfoldable pub roomiest_from : SubnetRow → List SubnetRow → SubnetRow
roomiest_from best [] = best
roomiest_from best (s ∷ rs) = roomiest_from (if ltb best.unused s.unused then s else best) rs

unfoldable pub roomiest_subnet : List SubnetRow → Option SubnetRow
unfolding roomiest_from
roomiest_subnet [] = none
roomiest_subnet (r ∷ rs) = some (roomiest_from r rs)

-- `filteredRows.slice((cardPage - 1) * 12, cardPage * 12)`
unfoldable pub paged_cards : List SubnetRow → ℕ → List SubnetRow
paged_cards rows card_page =
    take (card_page * 12 - (card_page - 1) * 12) (drop ((card_page - 1) * 12) rows)

-- The state of the summary, which lists the subnets as cards.
pub record SummaryPage : Type 0 where
  pub subnets : List SubnetDetail
  pub subnets_loading : Bool
  pub subnets_error : Option Text
  pub search : Text
  pub card_page : ℕ

-- The effect on mount, up to its request and after it.
unfoldable pub start_summary : SummaryPage → SummaryPage
start_summary s = record s { subnets_loading = true; subnets_error = none }

unfoldable pub settle_summary : Response (List SubnetDetail) → SummaryPage → SummaryPage
settle_summary (resolved all) s = record s { subnets = all; subnets_loading = false }
settle_summary (rejected e) s = record s {
  subnets_error = some (error_text e (text "Failed to load subnets"));
  subnets = [];
  subnets_loading = false;
}

-- The search field, with the effect on its value.
unfoldable pub type_card_search : Text → SummaryPage → SummaryPage
type_card_search q s = if text_beq s.search q then s else record s { search = q; card_page = 1 }

unfoldable pub choose_card_page : ℕ → SummaryPage → SummaryPage
choose_card_page p s = record s { card_page = p }

-- The subnet that a click on a card opens.
unfoldable pub card_target : SubnetRow → Option Text
card_target row = if ltb 0 row.unused then some row.id else none

-- The subnet that a click on "Most room to grow" opens.
unfoldable pub roomiest_target : Option SubnetRow → Option Text
unfolding card_target
roomiest_target none = none
roomiest_target (some row) = card_target row

module _ (lower : Text → Text) where
  abbrev pub row_matches : Text → SubnetRow → Bool
  row_matches q s = contains (lower s.cidr) q || contains (lower s.name) q

  unfoldable pub filtered_rows : List SubnetRow → Text → List SubnetRow
  unfolding sort_rows
  filtered_rows rows search =
      let q = lower (trim search) in
      sort_rows (if is_empty q then rows else filter (row_matches q) rows)
