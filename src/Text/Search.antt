-- ===== src/Text/Search.antt =====
-- `s.startsWith(p)`, `s.includes(p)`, and the text joined from texts.
use iop.Base.{Bool, true, false, ◌&&◌, ◌||◌, [], ◌∷◌, Text, nat_beq}

unfoldable pub starts_with : Text → Text → Bool
starts_with s [] = true
starts_with [] (p ∷ ps) = false
starts_with (c ∷ cs) (p ∷ ps) = nat_beq c p && starts_with cs ps

-- `s.includes(p)`
unfoldable pub contains : Text → Text → Bool
unfolding starts_with
contains [] p = starts_with [] p
contains (c ∷ cs) p = starts_with (c ∷ cs) p || contains cs p

-- `!s`
abbrev pub is_empty : Text → Bool
is_empty [] = true
is_empty (c ∷ cs) = false
