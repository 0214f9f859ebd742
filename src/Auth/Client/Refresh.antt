-- ===== src/Auth/Client/Refresh.antt =====
-- At most one refresh of the token is on its way.
use iop.Base.{ℕ, ◌+◌, Bool, List, [], ◌∷◌, Text, if◌then◌else◌}
use iop.Auth.Client.{Client, Event, issued, answered, refresh_answered, Effect, refresh_sent}

abbrev pub is_refresh : Effect → ℕ
is_refresh refresh_sent = 1
is_refresh e = 0

abbrev pub refreshes : List Effect → ℕ
refreshes [] = 0
refreshes (e ∷ es) = is_refresh e + refreshes es

abbrev pub refresh_answers : List Event → ℕ
refresh_answers [] = 0
refresh_answers (refresh_answered t ∷ es) = 1 + refresh_answers es
refresh_answers (issued id url ∷ es) = refresh_answers es
refresh_answers (answered id a ∷ es) = refresh_answers es

abbrev pub on_its_way : Bool → ℕ
on_its_way b = if b then 1 else 0
