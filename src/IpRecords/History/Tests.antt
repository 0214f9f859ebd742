-- ===== src/IpRecords/History/Tests.antt =====
-- Tests and witnesses for the history of a record.
use iop.Base.{
  ◌≡◌, refl, [], ◌∷◌, Option, none, some, Text, text, text_eq, includes, Distinct, dedup,
}
use iop.IpRecords.History.{Fields, or_no_fields, is_changed, changed, field_of}
use iop.IpRecords.History.Changed.{changed_lem}

-- Values that are their own JSON.
abbrev as_json : Option Text → Option Text
as_json v = v

abbrev old_fields : Option (Fields Text)
old_fields = some ((text "owner", text "ann") ∷ (text "os", text "AIX") ∷ [])

abbrev new_fields : Option (Fields Text)
new_fields =
    some ((text "os", text "AIX") ∷ (text "owner", text "bob") ∷ (text "env", text "QA") ∷ [])

two_changed : changed as_json old_fields new_fields ≡ text "owner" ∷ text "env" ∷ []
unfolding changed field_of dedup
two_changed = refl

all_new : changed as_json none new_fields ≡ text "os" ∷ text "owner" ∷ text "env" ∷ []
unfolding changed field_of dedup
all_new = refl

changed_lem_example :
    Distinct (changed as_json old_fields new_fields)
    × ((k : Text)
        → includes (changed as_json old_fields new_fields) k
          ≡ is_changed as_json (or_no_fields old_fields) (or_no_fields new_fields) k)
changed_lem_example = changed_lem as_json old_fields new_fields
