-- ===== src/UnusedIps/Detail.antt =====
-- frontend/src/pages/UnusedIPs/UnusedIPsPage.tsx: the page of one subnet, with its two effects and
-- the timer that delays the search. `pending` holds the requests that are not answered yet.
pub mod Latest
use iop.Base.{
  ℕ, ◌≡◌, Bool, true, false, ◌&&◌, List, [], ◌∷◌, ◌++◌, Option, none, some, Text, text_beq, nat_beq,
  if◌then◌else◌,
}
use iop.Api.{Response, resolved, rejected}
use iop.Text.Search.{is_empty}

pub record UnusedIpsResponse : Type 0 where
  pub subnet_id : Text
  pub cidr : Text
  pub items : List Text
  pub total : ℕ
  pub page : ℕ
  pub page_size : ℕ
  pub capped : Bool

abbrev pub detail_page_size : ℕ
detail_page_size = 50

-- The arguments of `subnetsApi.unusedIps`.
pub record UnusedRequest : Type 0 where
  pub subnet : Text
  pub page_num : ℕ
  pub page_size : ℕ
  pub query : Text

-- A timer keeps the subnet and the search of the render that started it.
pub record DetailPage : Type 0 where
  pub selected_subnet_id : Option Text
  pub items : List Text
  pub total : ℕ
  pub capped : Bool
  pub page : ℕ
  pub detail_loading : Bool
  pub detail_search : Text
  pub check_avail_ip : Option Text
  pub search_params : Option Text
  pub timer : Option (Text × Text)
  pub pending : List UnusedRequest

-- `fetchUnused` up to its request, and after it.
unfoldable pub fetch_unused : Text → ℕ → Text → DetailPage → DetailPage
fetch_unused id page_num q s = record s {
  detail_loading = true;
  pending =
      s.pending
      ++ record { subnet = id; page_num = page_num; page_size = detail_page_size; query = q } ∷ [];
}

unfoldable pub settle_unused : Response UnusedIpsResponse → DetailPage → DetailPage
settle_unused (resolved res) s = record s {
  items = res.items;
  total = res.total;
  capped = res.capped;
  detail_loading = false;
}
settle_unused (rejected e) s = record s { items = []; total = 0; detail_loading = false }

-- `if (selectedSubnetId)`, where the empty text counts as no subnet.
abbrev pub as_truthy : Option Text → Option Text
as_truthy none = none
as_truthy (some id) = if is_empty id then none else some id

abbrev pub fetch_for : Option Text → DetailPage → DetailPage
fetch_for none s = s
fetch_for (some id) s = fetch_unused id s.page s.detail_search s

abbrev pub same_id : Option Text → Option Text → Bool
same_id none none = true
same_id none (some j) = false
same_id (some i) none = false
same_id (some i) (some j) = text_beq i j

-- The effect on the subnet and the page, where one of them is no longer that of `old`.
unfoldable pub page_effect : DetailPage → DetailPage → DetailPage
page_effect old s =
    if same_id old.selected_subnet_id s.selected_subnet_id && nat_beq old.page s.page
    then s
    else fetch_for (as_truthy s.selected_subnet_id) s

abbrev pub armed : Option Text → Text → Option (Text × Text)
armed none q = none
armed (some id) q = some (id, q)

-- The effect on the search: it clears the timer and starts another.
unfoldable pub search_effect : DetailPage → DetailPage → DetailPage
search_effect old s =
    if text_beq old.detail_search s.detail_search
    then s
    else record s { timer = armed (as_truthy s.selected_subnet_id) s.detail_search }

unfoldable pub detail_effects : DetailPage → DetailPage → DetailPage
unfolding page_effect search_effect
detail_effects old s = search_effect old (page_effect old s)

-- The state on mount, with the subnet of the address bar, and its effects, which both run.
unfoldable pub mounted : Option Text → DetailPage
unfolding fetch_unused
mounted subnet =
    let initial : DetailPage = record {
      selected_subnet_id = subnet;
      items = [];
      total = 0;
      capped = false;
      page = 1;
      detail_loading = false;
      detail_search = [];
      check_avail_ip = none;
      search_params = subnet;
      timer = armed (as_truthy subnet) [];
      pending = [];
    } in
    fetch_for (as_truthy subnet) initial

unfoldable pub open_subnet : Text → DetailPage → DetailPage
unfolding detail_effects
open_subnet id s = detail_effects s (record s {
  selected_subnet_id = some id;
  page = 1;
  detail_search = [];
  search_params = some id;
})

unfoldable pub back_to_summary : DetailPage → DetailPage
unfolding detail_effects
back_to_summary s = detail_effects s (record s {
  selected_subnet_id = none;
  items = [];
  total = 0;
  detail_search = [];
  search_params = none;
})

unfoldable pub type_search : Text → DetailPage → DetailPage
unfolding detail_effects
type_search q s = detail_effects s (record s { detail_search = q })

unfoldable pub choose_page : ℕ → DetailPage → DetailPage
unfolding detail_effects
choose_page p s = detail_effects s (record s { page = p })

-- The callback of the timer that holds `id` and `q`.
unfoldable pub fire_search : Text → Text → DetailPage → DetailPage
unfolding detail_effects fetch_unused
fire_search id q s = detail_effects s (fetch_unused id 1 q (record s { timer = none; page = 1 }))

unfoldable pub check_ip : Option Text → DetailPage → DetailPage
check_ip ip s = record s { check_avail_ip = ip }

-- `onUpdated` of the availability check.
unfoldable pub refetch_updated : DetailPage → DetailPage
unfolding fetch_unused
refetch_updated s = fetch_for (as_truthy s.selected_subnet_id) s

module _ (server : UnusedRequest → Response UnusedIpsResponse) where
  -- One event of the page. Requests are answered in the order in which they were sent. A subnet is
  -- opened from the summary, where no timer is left from the subnet before.
  pub data Step (s : DetailPage) : DetailPage → Type 0 where
    opened : (id : Text) → s.selected_subnet_id ≡ none → s.timer ≡ none → Step s (open_subnet id s)
    went_back : Step s (back_to_summary s)
    typed : (q : Text) → Step s (type_search q s)
    chosen : (p : ℕ) → Step s (choose_page p s)
    fired : (id q : Text) → s.timer ≡ some (id, q) → Step s (fire_search id q s)
    checked : (ip : Option Text) → Step s (check_ip ip s)
    updated : Step s (refetch_updated s)
    answered :
        (r : UnusedRequest) (rest : List UnusedRequest)
        → s.pending ≡ r ∷ rest
        → Step s (settle_unused (server r) (record s { pending = rest }))

  pub data Reach : DetailPage → Type 0 where
    start : (subnet : Option Text) → Reach (mounted subnet)
    later : {s t : DetailPage} → Reach s → Step s t → Reach t
