-- ===== src/Base/Equality.antt =====
-- `===` on the values that the program compares, membership (`includes`) and `new Set`.
use Prim.Native.Nat.{ℕ}
use Prim.Native.Char.{code}
use Prim.Native.String.{String}
use mathlib.Core.Path.{◌≡◌, refl, ap, sym}
use mathlib.Core.Bool.{Bool, true, false, ◌&&◌, ◌||◌}
use mathlib.Core.Logic.{◌↔◌}
use mathlib.Core.List.{List, [], ◌∷◌, ◌++◌}
use native.Mathlib.Omega.{arith}
use iop.Base.Tests.{if◌then◌else◌, nat_beq, nat_beq_iff, Bool-cases, eq_of_iff}
use iop.Base.Lists.{All, All-intro, filter}
use mathlib.Core.Logic.{inl, inr}

pub record Eq {ℓ} (A : Type ℓ) : Type ℓ where
  pub same : A → A → Bool
  pub same_iff : (x y : A) → (same x y ≡ true) ↔ (x ≡ y)

-- A JavaScript string, as the list of its UTF-16 code units.
abbrev pub Text : Type 0
Text = List ℕ

-- The text of a literal; its characters are below U+10000, where a code unit is a code point.
abbrev pub text : String → Text
text String.[] = []
text (String.◌∷◌ c s) = code c ∷ text s

abbrev pub text_beq : Text → Text → Bool
text_beq [] [] = true
text_beq [] (y ∷ ys) = false
text_beq (x ∷ xs) [] = false
text_beq (x ∷ xs) (y ∷ ys) = nat_beq x y && text_beq xs ys

pub text_beq_iff : (s t : Text) → (text_beq s t ≡ true) ↔ (s ≡ t)
text_beq_iff [] [] = (λ _. refl, λ _. refl)
text_beq_iff [] (y ∷ ys) = (λ h. cc, λ h. cc)
text_beq_iff (x ∷ xs) [] = (λ h. cc, λ h. cc)
text_beq_iff (x ∷ xs) (y ∷ ys) = ground (arith, nat_beq_iff x y, text_beq_iff xs ys)

instance abbrev pub nat_eq : Eq ℕ
nat_eq = record { same = nat_beq; same_iff = nat_beq_iff }

instance abbrev pub text_eq : Eq Text
text_eq = record { same = text_beq; same_iff = text_beq_iff }

infix 50 ◌==◌
abbrev pub ◌==◌ {ℓ} : {A : Type ℓ} ⦃e : Eq A⦄ → A → A → Bool
◌==◌ ⦃e⦄ = e.same

module _ {ℓ} {A : Type ℓ} ⦃e : Eq A⦄ where
  -- `xs.includes(a)`
  abbrev pub includes : List A → A → Bool
  includes [] a = false
  includes (x ∷ xs) a = x == a || includes xs a

  pub eq_self : (a : A) → (a == a) ≡ true
  eq_self a = (e.same_iff a a).1 refl

  pub includes-append :
      (xs ys : List A) (a : A) → includes (xs ++ ys) a ≡ (includes xs a || includes ys a)
  includes-append [] ys a = refl
  includes-append (x ∷ xs) ys a = ground (arith, includes-append xs ys a)

  -- No element is listed twice.
  abbrev pub Distinct : List A → Type 0
  Distinct [] = Unit
  Distinct (x ∷ xs) = (includes xs x ≡ false) × Distinct xs

  -- `[...new Set(xs)]` with the elements in `seen` already in the set: first occurrences, in order.
  unfoldable pub dedup_from : List A → List A → List A
  dedup_from seen [] = []
  dedup_from seen (x ∷ xs) =
      let fresh = x ∷ dedup_from (x ∷ seen) xs in
      let old = dedup_from seen xs in if includes seen x then old else fresh

  unfoldable pub dedup : List A → List A
  unfolding dedup_from
  dedup xs = dedup_from [] xs

  includes_same : (seen : List A) (x a : A) → (x == a) ≡ true → includes seen x ≡ includes seen a
  includes_same seen x a h = ap (includes seen) ((e.same_iff x a).0 h)

  pub same_comm : (x y : A) → (x == y) ≡ (y == x)
  same_comm x y =
      eq_of_iff (x == y) (y == x) (λ h. (e.same_iff y x).1 (sym ((e.same_iff x y).0 h)))
        (λ h. (e.same_iff x y).1 (sym ((e.same_iff y x).0 h)))

  -- Elements of a list without `x`, and none of them seen, are not seen with `x` either.
  unseen :
      (seen : List A) (x : A) (xs : List A)
      → All (λ y. includes seen y ≡ false) xs
      → includes xs x ≡ false
      → All (λ y. includes (x ∷ seen) y ≡ false) xs
  unseen seen x [] new h = tt
  unseen seen x (y ∷ ys) new h =
      (ground (arith, same_comm x y), unseen seen x ys new.1 (ground arith))

  includes-dedup_from_seen :
      (seen xs : List A) (a : A) → includes seen a ≡ true → includes (dedup_from seen xs) a ≡ false
  unfolding dedup_from
  includes-dedup_from_seen seen [] a h = refl
  includes-dedup_from_seen seen (x ∷ xs) a h = elim (Bool-cases (includes seen x)) [
    | inl old ↦ rw old (includes-dedup_from_seen seen xs a h)
    | inr new ↦ rw new (
        ground
          (arith, includes_same seen x a, includes-dedup_from_seen (x ∷ seen) xs a (ground arith)))
  ]

  includes-dedup_from :
      (seen xs : List A) (a : A)
      → (includes seen a || includes (dedup_from seen xs) a) ≡ (includes seen a || includes xs a)
  unfolding dedup_from
  includes-dedup_from seen [] a = refl
  includes-dedup_from seen (x ∷ xs) a = elim (Bool-cases (includes seen x)) [
    | inl old ↦ rw old (ground (arith, includes_same seen x a, includes-dedup_from seen xs a))
    | inr new ↦ rw new (ground (arith, includes-dedup_from (x ∷ seen) xs a))
  ]

  Distinct-dedup_from : (seen xs : List A) → Distinct (dedup_from seen xs)
  unfolding dedup_from
  Distinct-dedup_from seen [] = tt
  Distinct-dedup_from seen (x ∷ xs) = elim (Bool-cases (includes seen x)) [
    | inl old ↦ rw old (Distinct-dedup_from seen xs)
    | inr new ↦ rw new (
      includes-dedup_from_seen (x ∷ seen) xs x (ground (arith, eq_self x)),
      Distinct-dedup_from (x ∷ seen) xs,
    )
  ]

  dedup_from-Distinct :
      (seen xs : List A)
      → All (λ x. includes seen x ≡ false) xs
      → Distinct xs
      → dedup_from seen xs ≡ xs
  unfolding dedup_from
  dedup_from-Distinct seen [] new h = refl
  dedup_from-Distinct seen (x ∷ xs) new h =
      rw new.0
        (ap (λ r. x ∷ r) (dedup_from-Distinct (x ∷ seen) xs (unseen seen x xs new.1 h.0) h.1))

  -- The set of a list has the same elements.
  pub includes-dedup : (xs : List A) (a : A) → includes (dedup xs) a ≡ includes xs a
  unfolding dedup
  includes-dedup xs a = includes-dedup_from [] xs a

  -- The set of a list lists nothing twice.
  pub Distinct-dedup : (xs : List A) → Distinct (dedup xs)
  unfolding dedup
  Distinct-dedup xs = Distinct-dedup_from [] xs

  -- A list without repetitions is its own set.
  pub dedup-Distinct : (xs : List A) → Distinct xs → dedup xs ≡ xs
  unfolding dedup
  dedup-Distinct xs h = dedup_from-Distinct [] xs (All-intro (λ x. false ≡ false) (λ x. refl) xs) h

  All-dedup_from {κ} : (P : A → Type κ) (seen xs : List A) → All P xs → All P (dedup_from seen xs)
  unfolding dedup_from
  All-dedup_from P seen [] h = tt
  All-dedup_from P seen (x ∷ xs) h = elim (Bool-cases (includes seen x)) [
    | inl old ↦ rw old (All-dedup_from P seen xs h.1)
    | inr new ↦ rw new (h.0, All-dedup_from P (x ∷ seen) xs h.1)
  ]

  -- What holds of every element of a list holds of every element of its set.
  pub All-dedup {κ} : (P : A → Type κ) (xs : List A) → All P xs → All P (dedup xs)
  unfolding dedup
  All-dedup P xs h = All-dedup_from P [] xs h

  pub apply_same {κ} : {B : Type κ} (q : A → B) (x k : A) → (x == k) ≡ true → q x ≡ q k
  apply_same q x k h = ap q ((e.same_iff x k).0 h)

  pub includes-filter :
      (q : A → Bool) (ks : List A) (k : A) → includes (filter q ks) k ≡ (includes ks k && q k)
  includes-filter q [] k = refl
  includes-filter q (x ∷ xs) k = ground (arith, includes-filter q xs k, apply_same q x k)
