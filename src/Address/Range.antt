-- ===== src/Address/Range.antt =====
-- `isIPInCIDR` decides membership in the address range of the network.
use Prim.Native.Nat.{bit_and}
use mathlib.Core.List.{foldl}
use iop.Base.{
  ℕ, zero, suc, ◌+◌, ◌-◌, ◌*◌, ◌/◌, ◌^◌, ◌≤◌, ◌<◌, ◌≡◌, ◌↔◌, ap, sym, ◌∙◌, true, List, [], ◌∷◌,
  Option, none, some, arith, Text, nat_beq_iff,
}
use native.Mathlib.Nat.{div-mul-le_self, lt-div-mul-add, div-eq_of_lt-le, one-le-pow}
use iop.Base.Int.{ℤ, pos, negsuc}
use iop.Base.Bits.{bit_and_mask_iff, bit_and-zero}
use iop.Text.Split.{split}
use iop.Address.{
  word, push_octet, octet_step, ip_to_int, prefix_of, network_of, shift_count, mask_of,
  is_ip_in_cidr,
}

push_octet-lt : (acc : ℕ) (o : Option ℤ) → push_octet acc o < word
push_octet-lt acc none = omega arith
push_octet-lt acc (some (pos n)) = omega arith
push_octet-lt acc (some (negsuc n)) = omega arith

foldl-octet_step-lt : (parts : List Text) (acc : ℕ) → acc < word → foldl octet_step acc parts < word
foldl-octet_step-lt [] acc h = h
foldl-octet_step-lt (p ∷ ps) acc h = foldl-octet_step-lt ps (octet_step acc p) (push_octet-lt acc _)

-- An address is a 32-bit number, whatever the text.
pub ip_to_int-lt : (ip : Text) → ip_to_int ip < word
unfolding ip_to_int
ip_to_int-lt ip = foldl-octet_step-lt (split b'.' ip) 0 (omega arith)

-- The first address of the block of `2 ^ s` addresses that holds `a`.
abbrev pub base_of : ℕ → ℕ → ℕ
base_of s a = a / 2 ^ s * 2 ^ s

-- Address `a` is in the block of `2 ^ s` addresses that holds `n`.
abbrev pub InBlock : ℕ → ℕ → ℕ → Type 0
InBlock s n a = (base_of s n ≤ a) × (a < base_of s n + 2 ^ s)

shift_count-pos : (p s : ℕ) → suc p + s ≡ 32 → shift_count (some (pos (suc p))) ≡ s
unfolding shift_count
shift_count-pos p s whole = omega arith

mask_of-pos : (p s : ℕ) → suc p + s ≡ 32 → mask_of (some (pos (suc p))) ≡ word - 2 ^ s
unfolding mask_of
mask_of-pos p s whole = ap (λ (t : ℕ). word - 2 ^ t) (shift_count-pos p s whole)

-- Two 32-bit numbers agree under the mask exactly when their leading `p` bits do.
bit_and-mask_of_iff :
    (p s a b : ℕ)
    → p + s ≡ 32
    → a < word
    → b < word
    → (bit_and a (mask_of (some (pos p))) ≡ bit_and b (mask_of (some (pos p))))
      ↔ (a / 2 ^ s ≡ b / 2 ^ s)
bit_and-mask_of_iff zero s a b whole ha hb =
    let width : s ≡ 32 = omega arith in
    rw width ((λ _. omega arith), (λ _. unfold mask_of in (bit_and-zero a ∙ sym (bit_and-zero b))))
bit_and-mask_of_iff (suc p) s a b whole ha hb =
    rw (mask_of-pos p s whole)
      (rw whole at (bit_and_mask_iff (suc p) s a b (rw whole ha) (rw whole hb)))

-- Equal quotients by `2 ^ s` mean the same block.
div-eq_iff_InBlock : (s a n : ℕ) → (a / 2 ^ s ≡ n / 2 ^ s) ↔ InBlock s n a
div-eq_iff_InBlock s a n = (
  λ e. rw (← e) (div-mul-le_self a (2 ^ s), lt-div-mul-add (one-le-pow s 2 (omega arith))),
  λ h. div-eq_of_lt-le (2 ^ s) h.0 (omega arith),
)

-- With a prefix length of at most 32, `isIPInCIDR` holds exactly of the addresses from the first
-- to the last of the block of `2 ^ (32 - prefix)` addresses in which the network part lies.
pub is_ip_in_cidr_iff :
    (ip cidr : Text) (p s : ℕ)
    → prefix_of cidr ≡ some (pos p)
    → p + s ≡ 32
    → (is_ip_in_cidr ip cidr ≡ true) ↔ InBlock s (ip_to_int (network_of cidr)) (ip_to_int ip)
unfolding is_ip_in_cidr
is_ip_in_cidr_iff ip cidr p s known whole =
    let (agree_to, agree_from) =
      bit_and-mask_of_iff p s (ip_to_int ip) (ip_to_int (network_of cidr)) whole (ip_to_int-lt ip)
        (ip_to_int-lt (network_of cidr)) in
    let (block_to, block_from) =
      div-eq_iff_InBlock s (ip_to_int ip) (ip_to_int (network_of cidr)) in
    rw known (
      (λ h. block_to (agree_to ((nat_beq_iff _ _).0 h))),
      (λ h. (nat_beq_iff _ _).1 (agree_from (block_from h))),
    )
