-- ===== src/Address/Dotted.antt =====
-- Dotted quads: the text of four octets is read back as the 32-bit number that they make.
use iop.Base.{ℕ, ◌+◌, ◌*◌, ◌<◌, ◌≡◌, [], ◌∷◌, ◌++◌, arith, Text}
use iop.Text.Split.{split, split-free, split-append}
use iop.Text.Number.{octet_text, octet_text-free, parse_int-octet_text}
use iop.Address.{ip_to_int}

-- `a.b.c.d` in decimal.
abbrev pub dotted : ℕ → ℕ → ℕ → ℕ → Text
dotted a b c d =
    octet_text a ++ b'.' ∷ (octet_text b ++ b'.' ∷ (octet_text c ++ b'.' ∷ octet_text d))

abbrev pub IsOctet : ℕ → Type 0
IsOctet n = n < 256

pub split-dotted :
    (a b c d : ℕ)
    → split b'.' (dotted a b c d) ≡ octet_text a ∷ octet_text b ∷ octet_text c ∷ octet_text d ∷ []
split-dotted a b c d = rw (
  split-append b'.' (octet_text a) _ (octet_text-free a),
  split-append b'.' (octet_text b) _ (octet_text-free b),
  split-append b'.' (octet_text c) _ (octet_text-free c),
  split-free b'.' (octet_text d) (octet_text-free d),
)

-- The text of four octets is read as the number with these four digits in base 256.
pub ip_to_int-dotted :
    (a b c d : ℕ)
    → IsOctet a
    → IsOctet b
    → IsOctet c
    → IsOctet d
    → ip_to_int (dotted a b c d) ≡ ((a * 256 + b) * 256 + c) * 256 + d
unfolding ip_to_int
ip_to_int-dotted a b c d ha hb hc hd =
    rw
      (
        split-dotted a b c d,
        parse_int-octet_text a ha,
        parse_int-octet_text b hb,
        parse_int-octet_text c hc,
        parse_int-octet_text d hd,
      )
      (omega arith)
