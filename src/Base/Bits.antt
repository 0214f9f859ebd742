-- ===== src/Base/Bits.antt =====
-- `&` with a 32-bit network mask, as arithmetic.
use Prim.Native.Nat.{
  ℕ, zero, suc, ◌+◌, ◌-◌, ◌*◌, ◌/◌, ◌%◌, ◌^◌, ◌≤◌, ◌<◌, min, bit_and, digits, bit_and-bitwise,
}
use mathlib.Core.Path.{◌≡◌, refl, ap, sym, ◌∙◌}
use mathlib.Core.Logic.{◌↔◌}
use native.Mathlib.Omega.{arith}
use native.Mathlib.Nat.{
  two-pow-succ, one-le-pow, pow-succ', div-div-eq-div-mul, div-lt_iff_lt-mul, mul-div_cancel,
}

abbrev and_upto : ℕ → ℕ → ℕ → ℕ
and_upto count x y = digits (λ rest. zero) min count x y

-- Any two counts of digits that cover the first number give the same result.
and_upto_enough : (x y i j : ℕ) → x ≤ i → x ≤ j → and_upto i x y ≡ and_upto j x y
and_upto_enough zero y zero zero fits fits' = refl
and_upto_enough zero y zero (suc j) fits fits' = refl
and_upto_enough zero y (suc i) zero fits fits' = refl
and_upto_enough zero y (suc i) (suc j) fits fits' = refl
and_upto_enough (suc x) y zero j fits fits' = absurd (omega arith)
and_upto_enough (suc x) y (suc i) zero fits fits' = absurd (omega arith)
and_upto_enough (suc x) y (suc i) (suc j) fits fits' =
    let shorter = and_upto_enough (suc x / 2) (y / 2) i j (omega arith) (omega arith) in
    omega (arith, shorter)

-- The lowest digit of a conjunction, and the rest of it.
pub bit_and_step : (x y : ℕ) → bit_and x y ≡ min (x % 2) (y % 2) + bit_and (x / 2) (y / 2) * 2
bit_and_step zero y =
    let whole = bit_and-bitwise 0 y in
    let half = bit_and-bitwise 0 (y / 2) in omega (arith, whole, half)
bit_and_step (suc x) y =
    let enough = and_upto_enough (suc x / 2) (y / 2) x (suc x / 2) (omega arith) (omega arith) in
    let whole = bit_and-bitwise (suc x) y in
    let half = bit_and-bitwise (suc x / 2) (y / 2) in omega (arith, enough, whole, half)

no_digits : (count x : ℕ) → x ≤ count → bit_and x 0 ≡ 0
no_digits count zero fits = refl
no_digits zero (suc x) fits = absurd (omega arith)
no_digits (suc count) (suc x) fits =
    let halved = no_digits count (suc x / 2) (omega arith) in
    omega (arith, halved, bit_and_step (suc x) 0)

pub bit_and-zero : (x : ℕ) → bit_and x 0 ≡ 0
bit_and-zero x = no_digits x x (omega arith)

-- A number below `2 ^ k` is kept by `k` ones.
pub bit_and_ones : (k a : ℕ) → a < 2 ^ k → bit_and a (2 ^ k - 1) ≡ a
bit_and_ones zero zero h = refl
bit_and_ones zero (suc a) h = absurd (omega arith)
bit_and_ones (suc k) a h =
    let half : (2 ^ suc k - 1) / 2 ≡ 2 ^ k - 1 = omega (arith, two-pow-succ k, one-le-pow k 2) in
    omega (
      arith,
      two-pow-succ k,
      one-le-pow k 2,
      bit_and_step a (2 ^ suc k - 1),
      ap (λ (t : ℕ). bit_and (a / 2) t) half,
      bit_and_ones k (a / 2) (omega (arith, two-pow-succ k)),
    )

-- Halving first and then dividing by `2 ^ s` is dividing by `2 ^ (s + 1)`.
div_halves : (s a : ℕ) → a / 2 / 2 ^ s ≡ a / 2 ^ suc s
div_halves s a = div-div-eq-div-mul a 2 (2 ^ s) ∙ ap (λ (t : ℕ). a / t) (sym (pow-succ' 2 s))

-- Low zeros of the mask clear the low digits.
pub bit_and_shifted : (s a m : ℕ) → bit_and a (m * 2 ^ s) ≡ bit_and (a / 2 ^ s) m * 2 ^ s
bit_and_shifted zero a m =
    let one : m * 1 ≡ m = omega arith in
    let whole : a / 1 ≡ a = omega arith in
    omega (arith, ap (λ (t : ℕ). bit_and a t) one, ap (λ (t : ℕ). bit_and t m) whole)
bit_and_shifted (suc s) a m =
    let even : m * 2 ^ suc s ≡ 2 * (m * 2 ^ s) =
      omega (arith, ap (λ (t : ℕ). m * t) (two-pow-succ s)) in
    let half : m * 2 ^ suc s / 2 ≡ m * 2 ^ s = omega (arith) in
    let down : a / 2 / 2 ^ s ≡ a / 2 ^ suc s = div_halves s a in
    omega (
      arith,
      bit_and_step a (m * 2 ^ suc s),
      ap (λ (t : ℕ). bit_and (a / 2) t) half,
      bit_and_shifted s (a / 2) m,
      ap (λ (t : ℕ). bit_and t m) down,
      ap (λ (t : ℕ). bit_and (a / 2 ^ suc s) m * t) (two-pow-succ s),
      ap (λ (t : ℕ). t * 2 ^ s) (ap (λ (t : ℕ). bit_and t m) down),
    )

pub two_pow_split : (k s : ℕ) → 2 ^ (k + s) ≡ 2 ^ k * 2 ^ s
two_pow_split zero s = let e : 0 + s ≡ s = omega arith in omega (arith, ap (λ (t : ℕ). 2 ^ t) e)
two_pow_split (suc k) s =
    let e : suc k + s ≡ suc (k + s) = omega arith in
    omega (
      arith,
      ap (λ (t : ℕ). 2 ^ t) e,
      two-pow-succ (k + s),
      two_pow_split k s,
      ap (λ (t : ℕ). t * 2 ^ s) (two-pow-succ k),
    )

less_one : (p q : ℕ) → 1 ≤ p → (p - 1) * q + q ≡ p * q
less_one zero q h = absurd (omega arith)
less_one (suc p) q h = ap (λ (t : ℕ). t * q + q) (the p) ∙ omega arith
  where
    the : (p : ℕ) → suc p - 1 ≡ p
    the p = omega arith

-- The mask with `k` ones above `s` zeros keeps the high `k` of `k + s` digits.
pub bit_and_mask :
    (k s a : ℕ) → a < 2 ^ (k + s) → bit_and a (2 ^ (k + s) - 2 ^ s) ≡ a / 2 ^ s * 2 ^ s
bit_and_mask k s a h =
    let factored : 2 ^ (k + s) - 2 ^ s ≡ (2 ^ k - 1) * 2 ^ s =
      omega (arith, two_pow_split k s, less_one (2 ^ k) (2 ^ s) (one-le-pow k 2 (omega arith))) in
    let high : a / 2 ^ s < 2 ^ k =
      (div-lt_iff_lt-mul (one-le-pow s 2 (omega arith))).1 (rw (← two_pow_split k s) h) in
    ap (λ (t : ℕ). bit_and a t) factored
    ∙ bit_and_shifted s a (2 ^ k - 1)
    ∙ ap (λ (t : ℕ). t * 2 ^ s) (bit_and_ones k (a / 2 ^ s) high)

-- Two numbers agree under the mask exactly when their high digits agree.
pub bit_and_mask_iff :
    (k s a b : ℕ)
    → a < 2 ^ (k + s)
    → b < 2 ^ (k + s)
    → (bit_and a (2 ^ (k + s) - 2 ^ s) ≡ bit_and b (2 ^ (k + s) - 2 ^ s)) ↔ (a / 2 ^ s ≡ b / 2 ^ s)
bit_and_mask_iff k s a b ha hb =
    rw (bit_and_mask k s a ha, bit_and_mask k s b hb) (cancel, ap (λ (t : ℕ). t * 2 ^ s))
  where
    cancel : a / 2 ^ s * 2 ^ s ≡ b / 2 ^ s * 2 ^ s → a / 2 ^ s ≡ b / 2 ^ s
    cancel e =
        sym (mul-div_cancel (a / 2 ^ s) (one-le-pow s 2 (omega arith)))
        ∙ ap (λ (t : ℕ). t / 2 ^ s) e
        ∙ mul-div_cancel (b / 2 ^ s) (one-le-pow s 2 (omega arith))
