-- ===== src/Duplicates/Tests.antt =====
-- Tests and witnesses for the duplicates.
use iop.Base.{◌≡◌, refl, List, [], ◌∷◌, none, Text, text, text_eq}
use iop.Duplicates.{DuplicateRecordRef, DuplicateGroup, flatten_ids}

abbrev ref_of : Text → DuplicateRecordRef
ref_of id = record { id = id; ip_address = []; hostname = none; status = [] }

abbrev groups : List DuplicateGroup
groups =
    record { value = text "web"; count = 2; records = ref_of (text "a") ∷ ref_of (text "b") ∷ [] }
    ∷ record { value = text "db"; count = 2; records = ref_of (text "b") ∷ ref_of (text "c") ∷ [] }
    ∷ []

three_ids : flatten_ids groups ≡ text "a" ∷ text "b" ∷ text "c" ∷ []
unfolding flatten_ids
three_ids = refl
