-- ===== src/Auth/Tests.antt =====
-- Tests and witnesses for the session and the client.
use iop.Base.{◌+◌, ◌≡◌, ◌↔◌, refl, false, List, [], ◌∷◌, none, some, text}
use iop.Types.Auth.{viewer, operator, TokenResponse}
use iop.Api.{resolved, rejected}
use iop.Auth.Client.{
  Client, Event, issued, answered, refresh_answered, success, failure, run, handle, issue, settle,
  pull, await_refresh, end_refresh,
}
use iop.Auth.Client.Count.{settled}
use iop.Auth.Session.{
  initial_session, protected_route, protected_route_iff, content, Suffices, logged_in, initialized,
  token_refreshed, has_role,
}
use iop.Auth.Session as session

abbrev client : Client
client = record {
  access_token = some (text "old");
  refreshing = false;
  in_flight = [];
  waiting = [];
}

-- Two calls are refused at once, one refresh is sent, and both are sent again and answered.
abbrev calls : List Event
calls =
    issued 1 (text "/subnets")
    ∷ issued 2 (text "/vrfs")
    ∷ answered 1 (failure (some 401))
    ∷ answered 2 (failure (some 401))
    ∷ refresh_answered (some (text "new"))
    ∷ answered 1 success
    ∷ answered 2 (failure (some 401))
    ∷ []

both_calls_end : settled 1 (run calls client).1 + settled 2 (run calls client).1 ≡ 2
unfolding run handle issue settle pull await_refresh end_refresh iop.Text.Search.contains
both_calls_end = refl

abbrev token : TokenResponse
token = record {
  access_token = text "t";
  token_type = text "bearer";
  expires_in = 900;
  role = operator;
  full_name = text "O";
}

abbrev events : List session.Event
events =
    initialized (rejected (record { detail = none; message = none })) (resolved (text "o"))
    ∷ logged_in (text "o") (resolved token)
    ∷ token_refreshed none
    ∷ []

-- The content is still shown after a refresh that failed.
still_shown : protected_route viewer (session.run events initial_session) ≡ content
unfolding protected_route session.run session.handle session.initialize session.login
    session.refresh_token has_role
still_shown = refl

protected_route_iff_example :
    (protected_route viewer (session.run events initial_session) ≡ content) ↔ (
      ((session.run events initial_session).is_initializing ≡ false)
      × Suffices viewer (session.run events initial_session).role)
protected_route_iff_example = protected_route_iff viewer events
