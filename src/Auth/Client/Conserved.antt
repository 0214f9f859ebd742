-- ===== src/Auth/Client/Conserved.antt =====
-- Every call is settled once, and sent at most twice.
use iop.Base.{ℕ, ◌+◌, ◌*◌, ◌≤◌, ◌≡◌, List, Text, nat_eq}
use iop.Auth.Client.{Client, Effect}
use iop.Auth.Client.Count.{pending, settled, sent_count, chances_left, IsMarked}

-- One step, counted for one call: what is pending or issued is pending or settled after it, and
-- each send takes one of the chances.
record Balanced (k : ℕ) (issued_now : ℕ) (s t : Client) (es : List Effect) : Type 0 where
  conserved : pending k s + issued_now ≡ pending k t + settled k es
  spent : sent_count k es + chances_left k t ≤ chances_left k s + 2 * issued_now
  still_marked : IsMarked t
