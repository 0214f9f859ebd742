-- ===== src/Auth/Client.antt =====
-- frontend/src/api/client.ts: the interceptors of the shared HTTP client. The requests that are on
-- their way, and those whose handler awaits the refresh of the token, are lists of the state.
pub mod Refresh
pub mod Count
pub mod Conserved
use iop.Base.{
  ℕ, Bool, true, false, not, ◌&&◌, List, [], ◌∷◌, ◌++◌, map, Option, none, some, Text, text, nat_eq,
  ◌==◌, if◌then◌else◌,
}
use iop.Text.Search.{contains, is_empty}

-- `error.config`, with the identity of the call it was made for.
pub record Request : Type 0 where
  pub id : ℕ
  pub url : Text
  pub authorization : Option Text
  pub retry : Bool

pub record Client : Type 0 where
  pub access_token : Option Text
  pub refreshing : Bool
  pub in_flight : List Request
  pub waiting : List Request

-- A response, or an error with the status of its response if it has one.
pub data Answer : Type 0 where
  success : Answer
  failure : Option ℕ → Answer

pub data Event : Type 0 where
  issued : ℕ → Text → Event
  answered : ℕ → Answer → Event
  refresh_answered : Option Text → Event

pub data Effect : Type 0 where
  sent : Request → Effect
  refresh_sent : Effect
  delivered failed : ℕ → Effect

-- The request interceptor: `if (accessToken)` sets the header.
abbrev pub authorize : Option Text → Request → Request
authorize none r = r
authorize (some token) r = if is_empty token then r else record r { authorization = some token }

-- `originalRequest.url?.includes('/auth/refresh')`
abbrev pub is_refresh_endpoint : Request → Bool
is_refresh_endpoint r = contains (text "/auth/refresh") r.url

abbrev pub passed_by : Request → Option (Request × List Request) → Option (Request × List Request)
passed_by r none = none
passed_by r (some p) = some (p.0, r ∷ p.1)

-- The request of a call that is on its way, and the others.
unfoldable pub pull : ℕ → List Request → Option (Request × List Request)
pull id [] = none
pull id (r ∷ rs) =
    let later = passed_by r (pull id rs) in if r.id == id then some (r, rs) else later

abbrev pub is_unauthorized : Option ℕ → Bool
is_unauthorized none = false
is_unauthorized (some status) = status == 401

-- `error.response?.status === 401 && !originalRequest._retry && !isRefreshEndpoint`
abbrev pub can_retry : Option ℕ → Request → Bool
can_retry status r = is_unauthorized status && not r.retry && not (is_refresh_endpoint r)

abbrev pub marked : Request → Request
marked r = record r { retry = true }

-- `_retry = true`, the refresh where none is on its way, and the await of it.
unfoldable pub await_refresh : Request → List Request → Client → Client × List Effect
await_refresh r rest s = (
  record s { in_flight = rest; refreshing = true; waiting = s.waiting ++ marked r ∷ [] },
  if s.refreshing then [] else refresh_sent ∷ [],
)

-- The response interceptor for a call of the list.
unfoldable pub settle : Answer → Option (Request × List Request) → Client → Client × List Effect
unfolding await_refresh
settle answer none s = (s, [])
settle success (some (r, rest)) s = (record s { in_flight = rest }, delivered r.id ∷ [])
settle (failure status) (some (r, rest)) s =
    if can_retry status r
    then await_refresh r rest s
    else (record s { in_flight = rest }, failed r.id ∷ [])

abbrev pub failures : List Request → List Effect
failures [] = []
failures (r ∷ rs) = failed r.id ∷ failures rs

abbrev pub resent : List Request → List Effect
resent [] = []
resent (r ∷ rs) = sent r ∷ resent rs

-- The end of the refresh, and of every handler that awaits it.
unfoldable pub end_refresh : Option Text → Client → Client × List Effect
end_refresh none s =
    (record s { access_token = none; refreshing = false; waiting = [] }, failures s.waiting)
end_refresh (some token) s =
    let renewed = map (authorize (some token)) s.waiting in
    if is_empty token
    then (
      record s { access_token = some token; refreshing = false; waiting = [] },
      failures s.waiting,
    )
    else (
      record s {
        access_token = some token;
        refreshing = false;
        waiting = [];
        in_flight = s.in_flight ++ renewed;
      },
      resent renewed,
    )

unfoldable pub issue : ℕ → Text → Client → Client × List Effect
issue id url s =
    let r =
      authorize s.access_token
        (record { id = id; url = url; authorization = none; retry = false }) in
    (record s { in_flight = s.in_flight ++ r ∷ [] }, sent r ∷ [])

-- An answer of the refresh comes only while one is on its way.
abbrev pub end_if : Bool → Option Text → Client → Client × List Effect
end_if true token s = end_refresh token s
end_if false token s = (s, [])

unfoldable pub handle : Event → Client → Client × List Effect
unfolding settle pull end_refresh issue
handle (issued id url) s = issue id url s
handle (answered id answer) s = settle answer (pull id s.in_flight) s
handle (refresh_answered token) s = end_if s.refreshing token s

unfoldable pub run : List Event → Client → Client × List Effect
unfolding handle
run [] s = (s, [])
run (e ∷ es) s = let first = handle e s in let rest = run es first.0 in (rest.0, first.1 ++ rest.1)
