-- ===== src/Vault/Cabinet/Calls.antt =====
-- What the calls about the members of a cabinet do to it and to the other cabinets.
use iop.Base.{
  ◌≡◌, refl, ap, ◌∙◌, Bool, true, false, not, ◌&&◌, ◌||◌, List, [], ◌∷◌, ◌++◌, map, Text, text_eq,
  ◌==◌, eq_self, apply_same, includes, includes-filter, filter, Bool-cases, arith, inl, inr, All,
  All-append,
}
use iop.Types.Vault.{CabinetUpdate}
use iop.Vault.Cabinet.{
  CabinetCall, update, add_members, remove_member, without, add_call, member_calls,
}
use iop.Vault.Cabinet.Served.{Contents, contents_after, all_after, AllEdits, is_edit}

is_member-removed :
    (id : Text) (us : List Text) (k : Contents) (v : Text)
    → (all_after id (map (λ u. remove_member id u) us) k).is_member v
      ≡ (k.is_member v && not (includes us v))
is_member-removed id [] k v = ground arith
is_member-removed id (u ∷ us) k v =
    is_member-removed id us (contents_after id (remove_member id u) k) v
    ∙ rw (eq_self id) (ground arith)

is_member-calls :
    (id : Text) (us rs : List Text) (k : Contents) (v : Text)
    → (all_after id (add_call id us ++ map (λ u. remove_member id u) rs) k).is_member v
      ≡ ((k.is_member v || includes us v) && not (includes rs v))
is_member-calls id [] rs k v = ground (arith, is_member-removed id rs k v)
is_member-calls id (u ∷ us) rs k v =
    is_member-removed id rs (contents_after id (add_members id (u ∷ us)) k) v ∙ rw (eq_self id) refl

-- The difference of two lists, applied to one, gives the other.
pub is_member-member_calls :
    (id : Text) (new_members current : List Text) (k : Contents) (v : Text)
    → k.is_member v ≡ includes current v
    → (all_after id (member_calls id new_members current) k).is_member v ≡ includes new_members v
unfolding member_calls without
is_member-member_calls id new_members current k v same =
    is_member-calls id (filter (λ u. not (includes current u)) new_members)
      (filter (λ u. not (includes new_members u)) current) k v
    ∙ ground (
      arith,
      same,
      includes-filter (λ u. not (includes current u)) new_members v,
      includes-filter (λ u. not (includes new_members u)) current v,
    )

-- What holds of all calls about the members of a cabinet.
module _ (Q : CabinetCall → Type 0) where
  All-remove :
      (id : Text) (us : List Text)
      → ((u : Text) → includes us u ≡ true → Q (remove_member id u))
      → All Q (map (λ u. remove_member id u) us)
  All-remove id [] h = tt
  All-remove id (u ∷ us) h =
      (h u (ground (arith, eq_self u)), All-remove id us (λ w e. h w (ground arith)))

  All-add :
      (id : Text) (us : List Text)
      → ((ws : List Text) → ws ≡ us → Q (add_members id ws))
      → All Q (add_call id us)
  All-add id [] h = tt
  All-add id (u ∷ us) h = (h (u ∷ us) refl, tt)

  pub All-member_calls :
      (id : Text) (new_members current : List Text)
      → ((ws : List Text) → ws ≡ without new_members current → Q (add_members id ws))
      → ((u : Text) → includes (without current new_members) u ≡ true → Q (remove_member id u))
      → All Q (member_calls id new_members current)
  unfolding member_calls
  All-member_calls id new_members current add remove =
      All-append Q (add_call id (without new_members current)) _
        (All-add id (without new_members current) add)
        (All-remove id (without current new_members) remove)

pub AllEdits-member_calls :
    (id : Text) (new_members current : List Text) → AllEdits (member_calls id new_members current)
AllEdits-member_calls id new_members current =
    All-member_calls (λ c. is_edit c ≡ true) id new_members current (λ ws e. refl) (λ u e. refl)

-- Neither joining nor parting changes the details.
abbrev pub SameDetails : Text → CabinetCall → Type 0
SameDetails x c = (k : Contents) → (contents_after x c k).details ≡ k.details

pub SameDetails-add : (x id : Text) (us : List Text) → SameDetails x (add_members id us)
SameDetails-add x id us k = elim (Bool-cases (id == x)) [ inl e ↦ rw e refl | inr e ↦ rw e refl ]

pub SameDetails-remove : (x id u : Text) → SameDetails x (remove_member id u)
SameDetails-remove x id u k = elim (Bool-cases (id == x)) [ inl e ↦ rw e refl | inr e ↦ rw e refl ]

pub details-all_after :
    (x : Text) (cs : List CabinetCall) (k : Contents)
    → All (SameDetails x) cs
    → (all_after x cs k).details ≡ k.details
details-all_after x [] k h = refl
details-all_after x (c ∷ cs) k h = details-all_after x cs (contents_after x c k) h.1 ∙ h.0 k

-- No call is about a user who was a member and is to be one, or was none and is to be none.
abbrev pub Untouched : Text → Text → Bool → CabinetCall → Type 0
Untouched x v b c = (k : Contents) → k.is_member v ≡ b → (contents_after x c k).is_member v ≡ b

Untouched-add :
    (x id v : Text) (b : Bool) (us : List Text)
    → includes us v ≡ false
    → Untouched x v b (add_members id us)
Untouched-add x id v b us h k e = elim (Bool-cases (id == x)) [
  | inl own ↦ rw own (ground arith)
  | inr other ↦ rw other e
]

Untouched-remove :
    (x id v u : Text) (b : Bool) → (u == v) ≡ false → Untouched x v b (remove_member id u)
Untouched-remove x id v u b h k e = elim (Bool-cases (id == x)) [
  | inl own ↦ rw own (ground arith)
  | inr other ↦ rw other e
]

pub Untouched-member_calls :
    (x id : Text) (new_members current : List Text) (v : Text)
    → includes new_members v ≡ includes current v
    → All (Untouched x v (includes current v)) (member_calls id new_members current)
unfolding without
Untouched-member_calls x id new_members current v h =
    let b = includes current v in
    let added = includes-filter (λ u. not (includes current u)) new_members v in
    let removed = includes-filter (λ u. not (includes new_members u)) current v in
    All-member_calls (Untouched x v b) id new_members current
      (λ ws e. Untouched-add x id v b ws (ap (λ us. includes us v) e ∙ ground (arith, added)))
      (λ u e. Untouched-remove x id v u b (elim (Bool-cases (u == v)) [
        | inl same ↦ absurd (
            ground (
              arith,
              e,
              removed,
              apply_same (λ w. includes (without current new_members) w) u v same,
            ))
        | inr apart ↦ apart
      ]))

-- A call about another cabinet.
pub other_cabinet :
    (id x : Text) (k : Contents)
    → (id == x) ≡ false
    → (us : List Text) (u : Text) (d : CabinetUpdate)
    → (contents_after x (update id d) k ≡ k)
      × (contents_after x (add_members id us) k ≡ k)
      × (contents_after x (remove_member id u) k ≡ k)
other_cabinet id x k e us u d = rw e (refl, refl, refl)
