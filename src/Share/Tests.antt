-- ===== src/Share/Tests.antt =====
-- Tests and witnesses for the shared page.
use iop.Base.{ℕ, zero, suc, ◌≡◌, refl, true, false, List, [], ◌∷◌, some, text, arith}
use iop.Share.{refused, settle_view, format_size}
use iop.Text.Number.{decimal}
use iop.Share.Hidden.{
  ShareEvent, reveal_clicked, second_passed, run_share, initial_share, Timed, run_share-hidden,
}

abbrev seconds : ℕ → List ShareEvent
seconds zero = []
seconds (suc n) = second_passed ∷ seconds n

-- A link with a passphrase asks for it.
asks_passphrase :
    (settle_view
      (refused (record { status = some 401; detail = some (text "password_required") }))
      initial_share).needs_password
    ≡ true
unfolding settle_view
asks_passphrase = refl

still_shown :
    (run_share (seconds 29) (run_share (reveal_clicked ∷ []) initial_share)).countdown ≡ some 1
unfolding run_share
still_shown = refl

shows_bytes : format_size (λ digits a b. []) decimal 1023 ≡ text "1023" ∷ text " B" ∷ []
unfolding format_size decimal
shows_bytes = refl

run_share-hidden_example :
    let s = run_share (reveal_clicked ∷ second_passed ∷ []) initial_share in
    ((run_share (seconds 30) s).revealed ≡ false) × Timed s.revealed s.ticking s.countdown
run_share-hidden_example =
    run_share-hidden (reveal_clicked ∷ second_passed ∷ []) (seconds 30) tt (omega arith)
