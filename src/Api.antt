-- ===== src/Api.antt =====
-- The outcome of a call of the server, as the handlers of frontend/src/pages read it. What the
-- server answers is an argument of the handlers.
use iop.Base.{Option, none, some, Text}

-- `err.response?.data?.detail` and `err.message` of a rejected call.
pub record ApiError : Type 0 where
  pub detail : Option Text
  pub message : Option Text

pub data Response (A : Type 0) : Type 0 where
  resolved : A → Response A
  rejected : ApiError → Response A

-- `err.response?.data?.detail ?? err.message ?? fallback`
abbrev pub error_text : ApiError → Text → Text
error_text e fallback = elim (e.detail) [
  | some d ↦ d
  | none ↦ elim (e.message) [ some m ↦ m | none ↦ fallback ]
]
