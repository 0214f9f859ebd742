-- ===== src/Auth/Session.antt =====
-- frontend/src/context/AuthContext.tsx and frontend/src/components/common/ProtectedRoute.tsx, over
-- the token of frontend/src/api/client.ts.
use iop.Base.{
  ℕ, ◌≤◌, ◌≡◌, ◌↔◌, refl, Bool, true, false, not, List, [], ◌∷◌, Option, none, some, Text, leb,
  arith, if◌then◌else◌,
}
use iop.Types.Auth.{Role, viewer, operator, administrator, super_admin, TokenResponse}
use iop.Api.{Response, resolved, rejected}

-- `ROLE_LEVELS`
abbrev pub role_level : Role → ℕ
role_level viewer = 1
role_level operator = 2
role_level administrator = 3
role_level super_admin = 4

-- The state of `AuthProvider`, with `accessToken` of the client.
pub record Session : Type 0 where
  pub is_authenticated : Bool
  pub is_initializing : Bool
  pub username : Option Text
  pub full_name : Option Text
  pub role : Option Role
  pub access_token : Option Text

abbrev pub initial_session : Session
initial_session = record {
  is_authenticated = false;
  is_initializing = true;
  username = none;
  full_name = none;
  role = none;
  access_token = none;
}

unfoldable pub has_role : Option Role → Role → Bool
has_role none required = false
has_role (some role) required = leb (role_level required) (role_level role)

-- The first `then` of the effect that restores the session.
unfoldable pub restore : TokenResponse → Session → Session
restore t s = record s {
  access_token = some t.access_token;
  is_authenticated = true;
  role = some t.role;
  full_name = some t.full_name;
}

-- The effect as a whole: the answer to the refresh, and that to `me`, which is asked for after it.
unfoldable pub initialize : Response TokenResponse → Response Text → Session → Session
unfolding restore
initialize (rejected error) me s = record s { is_initializing = false }
initialize (resolved t) (rejected error) s = record (restore t s) { is_initializing = false }
initialize (resolved t) (resolved name) s = record (restore t s) {
  username = some name;
  is_initializing = false;
}

-- A login that is rejected throws before it changes anything.
unfoldable pub login : Text → Response TokenResponse → Session → Session
login name (rejected error) s = s
login name (resolved t) s = record s {
  access_token = some t.access_token;
  is_authenticated = true;
  username = some name;
  full_name = some t.full_name;
  role = some t.role;
}

-- The answer of the server is caught and not looked at.
unfoldable pub logout : Session → Session
logout s = record s {
  access_token = none;
  is_authenticated = false;
  username = none;
  full_name = none;
  role = none;
}

-- `setAccessToken` of the interceptor, after a refresh that was answered or failed.
unfoldable pub refresh_token : Option Text → Session → Session
refresh_token token s = record s { access_token = token }

pub data View : Type 0 where
  spinner to_login to_unauthorized content : View

-- What `ProtectedRoute` renders.
unfoldable pub protected_route : Role → Session → View
unfolding has_role
protected_route required s =
    if s.is_initializing
    then spinner
    else if not s.is_authenticated
    then to_login
    else if not (has_role s.role required)
    then to_unauthorized
    else content

pub data Event : Type 0 where
  initialized : Response TokenResponse → Response Text → Event
  logged_in : Text → Response TokenResponse → Event
  logged_out : Event
  token_refreshed : Option Text → Event

unfoldable pub handle : Event → Session → Session
unfolding initialize login logout refresh_token
handle (initialized r me) s = initialize r me s
handle (logged_in name r) s = login name r s
handle logged_out s = logout s
handle (token_refreshed t) s = refresh_token t s

unfoldable pub run : List Event → Session → Session
unfolding handle
run [] s = s
run (e ∷ es) s = run es (handle e s)

abbrev pub is_some : Option Role → Bool
is_some none = false
is_some (some r) = true

-- A user is authenticated exactly where a role is known, and only then has a full name.
abbrev pub IsSession : Session → Type 0
IsSession s = s.is_authenticated ≡ is_some s.role

IsSession-handle : (e : Event) (s : Session) → IsSession s → IsSession (handle e s)
unfolding handle initialize restore login logout refresh_token
IsSession-handle (initialized (rejected e) me) s h = h
IsSession-handle (initialized (resolved t) (rejected e)) s h = refl
IsSession-handle (initialized (resolved t) (resolved n)) s h = refl
IsSession-handle (logged_in name (rejected e)) s h = h
IsSession-handle (logged_in name (resolved t)) s h = refl
IsSession-handle logged_out s h = refl
IsSession-handle (token_refreshed t) s h = h

IsSession-run : (es : List Event) (s : Session) → IsSession s → IsSession (run es s)
unfolding run
IsSession-run [] s h = h
IsSession-run (e ∷ es) s h = IsSession-run es (handle e s) (IsSession-handle e s h)

-- What the route needs of the role.
abbrev pub Suffices : Role → Option Role → Type 0
Suffices required none = ⊥
Suffices required (some role) = role_level required ≤ role_level role

content_of :
    (required : Role) (role : Option Role) (authenticated initializing : Bool)
    → authenticated ≡ is_some role
    → ((if initializing
          then spinner
          else if not authenticated
          then to_login
          else if not (has_role role required)
          then to_unauthorized
          else content)
        ≡ content)
      ↔ ((initializing ≡ false) × Suffices required role)
unfolding has_role
content_of required none true i h = cc
content_of required none false true h = ground arith
content_of required none false false h = ground arith
content_of required (some r) false i h = cc
content_of required (some r) true true h = ground arith
content_of required (some r) true false h = ground arith

-- After any sequence of logins, logouts and refreshes, a protected route shows its content exactly
-- if the session has been initialized and the user has a role of at least the required level.
pub protected_route_iff :
    (required : Role) (es : List Event)
    → (protected_route required (run es initial_session) ≡ content) ↔ (
        ((run es initial_session).is_initializing ≡ false)
        × Suffices required (run es initial_session).role)
unfolding protected_route
protected_route_iff required es =
    let s = run es initial_session in
    content_of required s.role s.is_authenticated s.is_initializing
      (IsSession-run es initial_session refl)
