-- ===== src/Vault/Generator.antt =====
-- frontend/src/pages/Vault/PasswordGeneratorPage.tsx: the password, and the strength that is shown.
-- The random words are an argument.
pub mod Charset
use iop.Base.{
  ℕ, ◌+◌, ◌%◌, Bool, true, false, List, [], ◌∷◌, ◌++◌, map, Option, none, some, Text, text, length,
  get_elem?, ltb, if◌then◌else◌, arith,
}
use iop.Text.Search.{is_empty}

abbrev pub upper : Text
upper = text "ABCDEFGHJKLMNPQRSTUVWXYZ"

abbrev pub upper_ambig : Text
upper_ambig = text "ABCDEFGHIJKLMNOPQRSTUVWXYZ"

abbrev pub lower : Text
lower = text "abcdefghjkmnpqrstuvwxyz"

abbrev pub lower_ambig : Text
lower_ambig = text "abcdefghijklmnopqrstuvwxyz"

abbrev pub digits : Text
digits = text "23456789"

abbrev pub digits_ambig : Text
digits_ambig = text "0123456789"

abbrev pub symbols : Text
symbols = text "!@#$%^&*()-_=+[]{}|;:,.<>?"

-- The state of the page that `generate` reads.
pub record Choices : Type 0 where
  pub use_upper : Bool
  pub use_lower : Bool
  pub use_digits : Bool
  pub use_symbols : Bool
  pub no_ambiguous : Bool

unfoldable pub charset : Choices → Text
charset c =
    (if c.use_upper then if c.no_ambiguous then upper else upper_ambig else [])
    ++ (if c.use_lower then if c.no_ambiguous then lower else lower_ambig else [])
    ++ (if c.use_digits then if c.no_ambiguous then digits else digits_ambig else [])
    ++ (if c.use_symbols then symbols else [])

-- `charset[i]` in a `join("")`, where a missing element gives the empty text.
abbrev pub char_text : Option ℕ → Text
char_text none = []
char_text (some c) = c ∷ []

unfoldable pub pick : Text → List ℕ → Text
pick chars [] = []
pick chars (n ∷ ns) = char_text (get_elem? chars (n % length chars)) ++ pick chars ns

-- `random n` is the array of `n` words that `getRandomValues` fills.
unfoldable pub generate_password : (ℕ → List ℕ) → ℕ → Choices → Text
unfolding charset pick
generate_password random n c = if is_empty (charset c) then [] else pick (charset c) (random n)

unfoldable pub charset_size : Choices → ℕ
charset_size c =
    (if c.use_upper then length (if c.no_ambiguous then upper else upper_ambig) else 0)
    + (if c.use_lower then length (if c.no_ambiguous then lower else lower_ambig) else 0)
    + (if c.use_digits then length (if c.no_ambiguous then digits else digits_ambig) else 0)
    + (if c.use_symbols then length symbols else 0)

pub record Strength : Type 0 where
  pub label : Text
  pub color : Text
  pub percent : ℕ

-- The bits are those of `entropy`, a parameter rounded down; the thresholds are whole.
unfoldable pub strength_label : ℕ → Strength
strength_label bits =
    if ltb bits 28
    then record { label = text "Very Weak"; color = text "#ff4d4f"; percent = 10 }
    else if ltb bits 36
    then record { label = text "Weak"; color = text "#ff7a45"; percent = 25 }
    else if ltb bits 60
    then record { label = text "Fair"; color = text "#ffa940"; percent = 50 }
    else if ltb bits 80
    then record { label = text "Strong"; color = text "#73d13d"; percent = 75 }
    else record { label = text "Very Strong"; color = text "#52c41a"; percent = 100 }
