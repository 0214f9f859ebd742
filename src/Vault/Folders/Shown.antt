-- ===== src/Vault/Folders/Shown.antt =====
-- Which folders `renderNode` of frontend/src/pages/Vault/FolderTree.tsx reaches from the roots.
use iop.Base.{
  ℕ, ◌<◌, suc, zero, ◌≡◌, refl, sym, ap, ◌∙◌, inl, inr, Bool, true, false, not, List, [], ◌∷◌, map,
  Option, none, some, arith, Text, text_eq, ◌==◌, eq_self, includes, filter, Bool-cases,
  if◌then◌else◌, Member, All, All-Member,
}
use iop.Types.Vault.{Folder}
use iop.Text.Search.{is_empty}
use iop.Vault.Folders.{build_tree, children_of}
use iop.Vault.Folders.Shape.{
  id_of, is_child_of, is_parentless, build_tree_lem, children_of-build_tree,
}

pub data Shown (folders : List Folder) : Text → Type 0 where
  at_root : {id : Text} → includes (build_tree folders).1 id ≡ true → Shown folders id
  below :
      {id p : Text}
      → Shown folders p
      → includes (children_of p (build_tree folders).0) id ≡ true
      → Shown folders id

-- A folder that passes a test is among those that do.
includes-map-filter :
    (t : Folder → Bool) (f : Folder) (fs : List Folder)
    → Member f fs
    → t f ≡ true
    → includes (map id_of (filter t fs)) f.id ≡ true
includes-map-filter t f [] m h = absurd m
includes-map-filter t f (g ∷ fs) (inl e) h = rw (sym e) (rw h (ground (arith, eq_self f.id)))
includes-map-filter t f (g ∷ fs) (inr m) h = ground (arith, includes-map-filter t f fs m h)

-- The rank of a folder is above the rank of the listed folder that is its parent.
abbrev pub IsBelowParent : (Text → ℕ) → List Folder → Folder → Type 0
IsBelowParent rank folders f =
    (p : Text) → is_child_of p f ≡ true → includes (map id_of folders) p ≡ true → rank p < rank f.id

parent_or_top :
    (q : Option Text) (ids : List Text)
    → elim q [ none ↦ true | some p ↦ if is_empty p then true else not (includes ids p) ] ≡ false
    → (p : Text) × (elim q [ none ↦ false | some r ↦ if is_empty r then false else r == p ] ≡ true)
      × (includes ids p ≡ true)
parent_or_top none ids h = cc
parent_or_top (some p) ids h = (p, ground (arith, eq_self p), ground (arith))

-- An id of the list is the id of one of its folders.
folder_of :
    (fs : List Folder) (p : Text)
    → includes (map id_of fs) p ≡ true
    → (g : Folder) × Member g fs × (g.id ≡ p)
folder_of [] p h = cc
folder_of (f ∷ fs) p h = elim (Bool-cases (f.id == p)) [
  | inl e ↦ (f, inl refl, (text_eq.same_iff f.id p).0 e)
  | inr e ↦ let rest = folder_of fs p (ground (arith)) in (rest.0, inr rest.1, rest.2)
]

module _ (folders : List Folder) (rank : Text → ℕ) where
  Shown-upto :
      (n : ℕ) (f : Folder)
      → All (IsBelowParent rank folders) folders
      → Member f folders
      → rank f.id < n
      → Shown folders f.id
  Shown-upto zero f h m lt = absurd (omega (arith, lt))
  Shown-upto (suc n) f h m lt = elim (Bool-cases (is_parentless folders f)) [
    | inl e ↦ at_root (
        ap (λ (l : List Text). includes l f.id) (build_tree_lem folders f.id).1
        ∙ includes-map-filter (is_parentless folders) f folders m e)
    | inr e ↦
        let up = parent_or_top f.parent_id (map id_of folders) e in
        let g = folder_of folders up.0 up.2 in
        let less = All-Member (IsBelowParent rank folders) folders h m up.0 up.1 up.2 in
        let above = ap rank g.2 in
        below (Shown-upto n g.0 h g.1 (omega (arith, less, above, lt))) (
          ap (λ (x : Text). includes (children_of x (build_tree folders).0) f.id) g.2
          ∙ ap (λ (l : List Text). includes l f.id) (children_of-build_tree folders up.0 up.2)
          ∙ includes-map-filter (is_child_of up.0) f folders m up.1)
  ]

  -- Where a rank grows from each listed parent to its child, which rules out a cycle of parents,
  -- the tree that `buildTree` makes shows every folder: it is a root, or a child of a shown one.
  pub build_tree-Shown :
      All (IsBelowParent rank folders) folders
      → (f : Folder) → Member f folders
      → Shown folders f.id
  build_tree-Shown h f m = Shown-upto (suc (rank f.id)) f h m (omega arith)
