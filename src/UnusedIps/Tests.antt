-- ===== src/UnusedIps/Tests.antt =====
-- Tests and witnesses for the page of unused addresses.
use iop.Base.{
  ℕ, zero, suc, ◌≡◌, refl, List, [], ◌∷◌, none, some, false, text, nat_beq, arith, if◌then◌else◌,
}
use iop.Types.Subnet.{SubnetDetail}
use iop.Types.Record.{PaginatedResponse}
use iop.Types.Sample.{subnet_at}
use iop.Api.{Response, resolved, rejected}
use iop.UnusedIps.{SubnetRow, row_of, fetch_all_subnets}
use iop.UnusedIps.Detail.{
  UnusedIpsResponse, UnusedRequest, DetailPage, as_truthy, fetch_unused, page_effect, search_effect,
  detail_effects, mounted, type_search, fire_search, settle_unused, Reach, start, later, typed,
  fired, answered,
}
use iop.UnusedIps.Detail.Latest.{content_of, request, shown-current}
use iop.UnusedIps.Fetch.{page_of, fetch_all_subnets_lem}

abbrev repeated : ℕ → List SubnetDetail
repeated zero = []
repeated (suc n) = subnet_at (text "a") (text "10.0.0.0/24") ∷ repeated n

-- A server with 201 subnets, which takes two pages.
abbrev server : ℕ → Response (PaginatedResponse SubnetDetail)
server page = resolved (page_of (repeated 201) page)

fetch_all_subnets_lem_example : fetch_all_subnets server 2 ≡ some (resolved (repeated 201))
fetch_all_subnets_lem_example =
    fetch_all_subnets_lem server (repeated 201) 1 (λ page h. refl) (omega arith)

abbrev row_with : ℕ → SubnetRow
row_with n = record { detail = subnet_at (text "a") (text "10.0.0.0/24"); unused = n }

abbrev rows : List SubnetRow
rows = row_with 3 ∷ row_with 241 ∷ row_with 17 ∷ []

unused_of : (row_of (subnet_at (text "a") (text "10.0.0.0/24"))).unused ≡ 241
unfolding row_of
unused_of = refl

-- A server with one address on each page, which rejects the second.
abbrev answers : UnusedRequest → Response UnusedIpsResponse
answers r =
    if nat_beq r.page_num 2
    then rejected (record { detail = none; message = none })
    else resolved (record {
      subnet_id = r.subnet;
      cidr = text "10.0.0.0/24";
      items = r.query ∷ [];
      total = 1;
      page = r.page_num;
      page_size = r.page_size;
      capped = false;
    })

-- The page of a subnet, after a search.
abbrev searched : DetailPage
searched = fire_search (text "a") (text "7") (type_search (text "7") (mounted (some (text "a"))))

abbrev half_answered : DetailPage
half_answered =
    settle_unused (answers (request (text "a") 1 []))
      (record searched { pending = request (text "a") 1 (text "7") ∷ [] })

abbrev answered_all : DetailPage
answered_all =
    settle_unused (answers (request (text "a") 1 (text "7")))
      (record half_answered { pending = [] })

searched-Reach : Reach answers answered_all
unfolding mounted fetch_unused type_search detail_effects page_effect search_effect fire_search
    settle_unused
searched-Reach =
    later
      (later
        (later (later (start (some (text "a"))) (typed (text "7")))
          (fired (text "a") (text "7") refl))
        (answered (request (text "a") 1 []) (request (text "a") 1 (text "7") ∷ []) refl))
      (answered (request (text "a") 1 (text "7")) [] refl)

answered_all-idle :
    (answered_all.timer ≡ none)
    × (answered_all.pending ≡ [])
    × (as_truthy answered_all.selected_subnet_id ≡ some (text "a"))
unfolding mounted fetch_unused type_search detail_effects page_effect search_effect fire_search
    settle_unused
answered_all-idle = (refl, refl, refl)

shown-current_example :
    (answered_all.items, answered_all.total)
    ≡ content_of (answers (request (text "a") answered_all.page answered_all.detail_search))
shown-current_example =
    shown-current answers {s = answered_all} (text "a") searched-Reach answered_all-idle.0
      answered_all-idle.1 answered_all-idle.2
