-- ===== src/PaloAlto/Single/Shown.antt =====
-- What the page of one address shows is about the address in its field.
use iop.Base.{◌≡◌, refl, Bool, true, false, not, ◌||◌, none, some, nat_eq}
use iop.Text.Trim.{trim}
use iop.Types.PaloAlto.{PaloAltoCheckResult}
use iop.CheckModal.Superseded.{is_live}
use iop.PaloAlto.{is_valid_ipv4}
use iop.PaloAlto.Single.{
  single, SingleCheck, type_input, set_mode, Step, typed, switched, fired, logged, answered, failed,
  ended, Reach, start, later,
}
use iop.PaloAlto.Single.Kept.{
  Inv, Inv-start, Inv-fired, Inv-effect, Inv-answered, Inv-logged, Inv-failed, Inv-ended,
}

Inv-Step : {s t : SingleCheck} → Step s t → Inv s → Inv t
unfolding type_input set_mode
Inv-Step {s} (typed input m new) h =
    Inv-effect single (record s { check_input = input; check_timer = none }) m refl h.stopped
      h.loading
Inv-Step {s} (switched m new) h =
    Inv-effect m (record s { mode = m; check_timer = none }) refl refl h.stopped h.loading
Inv-Step {s} (fired ip e) h = Inv-fired ip s e h
Inv-Step {s} (logged k line g) h = Inv-logged line s h
Inv-Step {s} (answered k r g e) h = Inv-answered k r s g e h
Inv-Step {s} (failed k message g) h = Inv-failed message s h
Inv-Step {s} (ended k thrown g) h = Inv-ended k thrown s h

Reach-Inv : {s : SingleCheck} → Reach s → Inv s
Reach-Inv start = Inv-start
Reach-Inv (later r step) = Inv-Step step (Reach-Inv r)

while_loading : {live : Bool} (b : Bool) → (b ≡ true → live ≡ true) → (not b || live) ≡ true
while_loading true h = h refl
while_loading false h = refl

-- In every state that the page can reach, it is loading only while its latest run is live; and in
-- the mode for one address, where no timer is armed, a result that is shown is about the trimmed
-- text of the field, which is a valid address, whatever runs were started and overtaken before.
pub shown-typed :
    {s : SingleCheck} (r : PaloAltoCheckResult)
    → Reach s
    → s.mode ≡ single
    → s.check_timer ≡ none
    → s.check_result ≡ some r
    → ((not s.check_loading || is_live s.check_abort s.live) ≡ true)
      × (r.ip_address ≡ trim s.check_input)
      × (is_valid_ipv4 r.ip_address ≡ true)
shown-typed {s} r reached m t e =
    let h = Reach-Inv reached in
    let typed_ip = h.shown (m, t) r e in
    (while_loading s.check_loading h.loading, typed_ip.0, typed_ip.1)
