-- ===== src/Share.antt =====
-- frontend/src/pages/Share/SharePage.tsx: the public page of a shared password or file.
pub mod Hidden
mod Tests
use iop.Base.{
  ℕ, zero, suc, ◌-◌, Bool, true, false, not, ◌&&◌, ◌||◌, List, [], ◌∷◌, Option, none, some, Text,
  text, text_eq, ◌==◌, nat_beq, leb, if◌then◌else◌,
}

pub record SharedPasswordResponse : Type 0 where
  pub entry_title : Text
  pub username : Option Text
  pub password : Text
  pub url : Option Text
  pub note : Option Text
  pub expires_at : Option Text
  pub view_count : ℕ
  pub max_views : ℕ

pub record SharedFileResponse : Type 0 where
  pub file_id : Text
  pub filename : Text
  pub size_bytes : ℕ
  pub content_type : Text
  pub note : Option Text
  pub expires_at : Option Text
  pub view_count : ℕ
  pub max_views : ℕ

pub data SharedResource : Type 0 where
  password_entry : SharedPasswordResponse → SharedResource
  file : SharedFileResponse → SharedResource

-- `err.response` with its status and detail.
pub record ShareError : Type 0 where
  pub status : Option ℕ
  pub detail : Option Text

pub data ShareAnswer : Type 0 where
  viewed : SharedResource → ShareAnswer
  refused : ShareError → ShareAnswer

-- The state of the page; `ticking` says that an interval runs.
pub record SharePage : Type 0 where
  pub entry : Option SharedResource
  pub loading : Bool
  pub error : Option Text
  pub needs_password : Bool
  pub password_input : Text
  pub password_error : Option Text
  pub unlocking : Bool
  pub revealed : Bool
  pub countdown : Option ℕ
  pub ticking : Bool

abbrev pub is_status : ℕ → Option ℕ → Bool
is_status n none = false
is_status n (some m) = nat_beq m n

abbrev pub detail_or_text : Option Text → Text → Text
detail_or_text none fallback = fallback
detail_or_text (some d) fallback = d

-- `applyError`
unfoldable pub apply_error : ShareError → SharePage → SharePage
apply_error e s = record s {
  error = some (
      if is_status 404 e.status
      then text "This share link was not found."
      else if is_status 410 e.status
      then detail_or_text e.detail (text "This share link has expired or been revoked.")
      else if is_status 429 e.status
      then text "Too many requests. Please wait a moment and try again."
      else text "Failed to load shared content. The link may be invalid.");
}

abbrev pub is_required : Option Text → Bool
is_required none = false
is_required (some d) = d == text "password_required"

-- The effect on mount, after its request.
unfoldable pub settle_view : ShareAnswer → SharePage → SharePage
unfolding apply_error
settle_view (viewed r) s = record s { entry = some r; loading = false }
settle_view (refused e) s =
    let asked : SharePage = record s { needs_password = true } in
    let told : SharePage = apply_error e s in
    record (if is_status 401 e.status && is_required e.detail then asked else told) {
      loading = false;
    }

-- `handleUnlock` up to its request, and after it.
unfoldable pub start_unlock : SharePage → SharePage
start_unlock s = record s { unlocking = true; password_error = none }

unfoldable pub settle_unlock : ShareAnswer → SharePage → SharePage
settle_unlock (viewed r) s = record s { entry = some r; needs_password = false; unlocking = false }
settle_unlock (refused e) s = record s {
  password_error = some (
      if is_status 401 e.status
      then text "Incorrect passphrase."
      else text "Failed to unlock this link.");
  unlocking = false;
}

-- The effect on `revealed`, which starts and clears the interval.
abbrev pub reveal_effect : Bool → SharePage → SharePage
reveal_effect false s = record s { revealed = false; countdown = none; ticking = false }
reveal_effect true s = record s { revealed = true; countdown = some 30; ticking = true }

-- The button that shows and hides the password.
unfoldable pub toggle_revealed : SharePage → SharePage
toggle_revealed s = reveal_effect (not s.revealed) s

abbrev pub is_last_second : Option ℕ → Bool
is_last_second none = true
is_last_second (some c) = leb c 1

abbrev pub counted_down : Option ℕ → Option ℕ
counted_down none = none
counted_down (some c) = some (c - 1)

-- A second, by whether an interval runs and whether it is the last of it, with the effect where the
-- password is hidden.
abbrev pub ticked : Bool → Bool → SharePage → SharePage
ticked false last s = s
ticked true true s = reveal_effect false s
ticked true false s = record s { countdown = counted_down s.countdown }

unfoldable pub share_tick : SharePage → SharePage
share_tick s = ticked s.ticking (is_last_second s.countdown) s

-- `formatSize`, with the divisions rounded to tenths and hundredths by `fixed`.
unfoldable pub format_size : (ℕ → ℕ → ℕ → Text) → (ℕ → Text) → ℕ → List Text
format_size fixed decimal bytes =
    if not (leb 1024 bytes)
    then decimal bytes ∷ text " B" ∷ []
    else if not (leb 0x10_0000 bytes)
    then fixed 1 bytes 1024 ∷ text " KB" ∷ []
    else if not (leb 0x4000_0000 bytes)
    then fixed 1 bytes 0x10_0000 ∷ text " MB" ∷ []
    else fixed 2 bytes 0x4000_0000 ∷ text " GB" ∷ []
