-- ===== src/IpRecords/History/Changed.antt =====
-- Which changes a log entry shows.
use iop.Base.{
  ◌≡◌, refl, sym, ap, ◌∙◌, inl, inr, Bool, true, false, not, ◌&&◌, List, [], ◌∷◌, ◌++◌, Option,
  none, some, Text, text_eq, includes, includes-append, includes-filter, Distinct, dedup,
  Distinct-dedup, includes-dedup, filter, arith, Bool-cases, eq_self,
}
use iop.IpRecords.History.{Fields, same_json, or_no_fields, field_of, keys_of, is_changed, changed}

same_json_self : (o : Option Text) → same_json o o ≡ true
same_json_self none = refl
same_json_self (some t) = eq_self t

-- Filtering keeps a list free of repetitions.
Distinct-filter : (p : Text → Bool) (ks : List Text) → Distinct ks → Distinct (filter p ks)
Distinct-filter p [] d = tt
Distinct-filter p (k ∷ ks) d = elim (Bool-cases (p k)) [
  | inl kept ↦ rw kept (ground (arith, includes-filter p ks k, d.0), Distinct-filter p ks d.1)
  | inr gone ↦ rw gone (Distinct-filter p ks d.1)
]

field_of-missing :
    {V : Type 0} (o : Fields V) (k : Text) → includes (keys_of o) k ≡ false → field_of o k ≡ none
unfolding field_of
field_of-missing [] k h = refl
field_of-missing ((j, v) ∷ o) k h = ground (arith, field_of-missing o k)

module _ {V : Type 0} (stringify : Option V → Option Text) where
  -- A property that neither object has is not changed.
  unchanged :
      (b a : Fields V) (k : Text)
      → includes (keys_of b ++ keys_of a) k ≡ false
      → is_changed stringify b a k ≡ false
  unchanged b a k h =
      let parts = includes-append (keys_of b) (keys_of a) k in
      rw (field_of-missing b k (ground arith), field_of-missing a k (ground arith))
        (ap not (same_json_self (stringify none)))

  listed : (p q : Bool) → (p ≡ false → q ≡ false) → (p && q) ≡ q
  listed true q h = refl
  listed false q h = sym (h refl)

  -- A log entry lists exactly the properties whose values before and after differ in their JSON, a
  -- missing property being undefined, and lists each of them once.
  pub changed_lem :
      (before after : Option (Fields V))
      → Distinct (changed stringify before after)
        × ((k : Text)
            → includes (changed stringify before after) k
              ≡ is_changed stringify (or_no_fields before) (or_no_fields after) k)
  unfolding changed
  changed_lem before after =
      let b = or_no_fields before in
      let a = or_no_fields after in
      let ks = keys_of b ++ keys_of a in
      (
        Distinct-filter (is_changed stringify b a) (dedup ks) (Distinct-dedup ks),
        λ k.
            includes-filter (is_changed stringify b a) (dedup ks) k
            ∙ ap (λ c. c && is_changed stringify b a k) (includes-dedup ks k)
            ∙ listed (includes ks k) (is_changed stringify b a k) (unchanged b a k),
      )
