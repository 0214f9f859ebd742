-- ===== src/Scan/Estimate.antt =====
-- The time estimate and the confirmation of frontend/src/pages/NetworkScan/NetworkScanPage.tsx:
-- `estimateHosts`, `estimateSecs`, `formatMinutes`, `totalEstHosts`, `estSecs`, `needsConfirm`.
-- A number that may be NaN is an option. Seconds are in ten-thousandths, in which the constants of
-- the source are whole; no whole number of them gives a tie at the threshold.
use mathlib.Core.List.{foldl}
use iop.Base.{
  ℕ, ◌+◌, ◌-◌, ◌*◌, ◌/◌, ◌^◌, ◌≤◌, ◌<◌, ◌≡◌, ◌↔◌, refl, ap, inl, inr, Bool, true, false, List, [],
  ◌∷◌, Option, none, some, arith, Text, leb, ltb, if◌then◌else◌, All, Member,
}
use iop.Base.Int.{ℤ, pos, negsuc}
use iop.Types.Scan.{ScanMode, quick, standard, deep, scan_mode_info}
use iop.Address.{prefix_of}

-- `Math.max(0, 2 ** (32 - prefix) - 2)`, which is NaN of NaN.
abbrev pub hosts_of : Option ℤ → Option ℕ
hosts_of none = none
hosts_of (some (pos p)) = some (if leb p 32 then 2 ^ (32 - p) - 2 else 0)
hosts_of (some (negsuc n)) = some (2 ^ (33 + n) - 2)

-- The `catch` of the source is not modelled: nothing in the `try` throws.
unfoldable pub estimate_hosts : Text → Option ℕ
estimate_hosts cidr = hosts_of (prefix_of cidr)

abbrev pub add_nan : Option ℕ → Option ℕ → Option ℕ
add_nan none b = none
add_nan (some a) none = none
add_nan (some a) (some b) = some (a + b)

unfoldable pub total_est_hosts : List Text → Option ℕ
unfolding estimate_hosts
total_est_hosts cidrs = foldl (λ acc c. add_nan acc (estimate_hosts c)) (some 0) cidrs

-- The batch size `c` of a mode, and `t * 1.25`.
abbrev pub profile : ScanMode → ℕ × ℕ
profile quick = (150, 2750)
profile standard = (50, 6875)
profile deep = (25, 13750)

abbrev pub secs_of : ℕ → ScanMode → ℕ
secs_of hosts mode =
    let raw : ℕ = (hosts + (profile mode).0 - 1) / (profile mode).0 * (profile mode).1 in
    if ltb raw 20000 then 20000 else raw

abbrev pub estimate_secs : Option ℕ → ScanMode → Option ℕ
estimate_secs none mode = none
estimate_secs (some hosts) mode = some (secs_of hosts mode)

-- `estSecs > CONFIRM_SECS_THRESHOLD`, false of NaN.
abbrev pub above_threshold : Option ℕ → Bool
above_threshold none = false
above_threshold (some secs) = ltb 600000 secs

unfoldable pub needs_confirm : List Text → ScanMode → Bool
unfolding total_est_hosts
needs_confirm cidrs mode = above_threshold (estimate_secs (total_est_hosts cidrs) mode)

-- `Math.max(1, Math.round(secs / 60))`, the number that `formatMinutes` prints.
unfoldable pub format_minutes : ℕ → ℕ
format_minutes secs = let mins : ℕ = (secs + 300000) / 600000 in if ltb mins 1 then 1 else mins

foldl-add_nan-none :
    (cidrs : List Text) → foldl (λ acc c. add_nan acc (estimate_hosts c)) none cidrs ≡ none
foldl-add_nan-none [] = refl
foldl-add_nan-none (c ∷ cs) = foldl-add_nan-none cs

foldl-add_nan-Member :
    (c : Text) (cidrs : List Text) (acc : Option ℕ)
    → Member c cidrs
    → estimate_hosts c ≡ none
    → foldl (λ acc c. add_nan acc (estimate_hosts c)) acc cidrs ≡ none
foldl-add_nan-Member c [] acc m h = absurd m
foldl-add_nan-Member c (d ∷ ds) none m h = foldl-add_nan-none ds
foldl-add_nan-Member c (d ∷ ds) (some a) (inl e) h = rw (← e, h) (foldl-add_nan-none ds)
foldl-add_nan-Member c (d ∷ ds) (some a) (inr m) h = foldl-add_nan-Member c ds _ m h

-- One entry without a readable prefix length makes the estimate NaN, and then no scan of the list
-- asks for a confirmation, however large its other networks are.
pub needs_confirm-unreadable :
    (c : Text) (cidrs : List Text) (mode : ScanMode)
    → Member c cidrs
    → prefix_of c ≡ none
    → needs_confirm cidrs mode ≡ false
unfolding needs_confirm
needs_confirm-unreadable c cidrs mode m h =
    rw (foldl-add_nan-Member c cidrs (some 0) m (unfold estimate_hosts in (rw h)))

-- The hosts of the networks, where every prefix length is readable.
pub hosts_sum : List Text → ℕ
hosts_sum [] = 0
hosts_sum (c ∷ cs) = elim (estimate_hosts c) [ none ↦ 0 | some n ↦ n ] + hosts_sum cs

foldl-add_nan_sum :
    (cidrs : List Text) (acc : ℕ)
    → All (λ c. (n : ℕ) × (estimate_hosts c ≡ some n)) cidrs
    → foldl (λ acc c. add_nan acc (estimate_hosts c)) (some acc) cidrs
      ≡ some (acc + hosts_sum cidrs)
unfolding hosts_sum
foldl-add_nan_sum [] acc h = ap some (omega arith)
foldl-add_nan_sum (c ∷ cs) acc ((n, e), h) =
    rw (e, foldl-add_nan_sum cs (acc + n) h) (ap some (omega arith))

above_secs : (raw : ℕ) → (ltb 600000 (if ltb raw 20000 then 20000 else raw) ≡ true) ↔ (600000 < raw)
above_secs raw = ground arith

-- Where every prefix length is readable, a scan asks for confirmation exactly when the hosts of
-- all its networks, in batches of the mode's size, take more than a minute.
pub needs_confirm_iff :
    (cidrs : List Text) (mode : ScanMode)
    → All (λ c. (n : ℕ) × (estimate_hosts c ≡ some n)) cidrs
    → (needs_confirm cidrs mode ≡ true)
      ↔ (600000 < (hosts_sum cidrs + (profile mode).0 - 1) / (profile mode).0 * (profile mode).1)
unfolding needs_confirm
needs_confirm_iff cidrs mode h =
    let whole : 0 + hosts_sum cidrs ≡ hosts_sum cidrs = omega arith in
    rw (foldl-add_nan_sum cidrs 0 h, whole) (above_secs _)

-- One network within the limit of its mode never needs a confirmation.
pub needs_confirm-within_limit :
    (c : Text) (mode : ScanMode) (n : ℕ)
    → estimate_hosts c ≡ some n
    → n ≤ (scan_mode_info mode).max_hosts
    → needs_confirm (c ∷ []) mode ≡ false
unfolding needs_confirm
needs_confirm-within_limit c quick n e h = rw e (ground arith)
needs_confirm-within_limit c standard n e h = rw e (ground arith)
needs_confirm-within_limit c deep n e h = rw e (ground arith)
