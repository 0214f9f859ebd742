-- ===== src/Vault/Folders/Shape.antt =====
-- The tree that `buildTree` makes, in terms of the parents of the folders.
use iop.Base.{
  ◌≡◌, refl, ap, ◌∙◌, sym, inl, inr, Bool, true, false, not, ◌||◌, List, [], ◌∷◌, ◌++◌, map, Option,
  none, some, arith, Text, if◌then◌else◌, text_eq, ◌==◌, includes, filter, Bool-cases, apply_same,
  same_comm,
}
use mathlib.Core.List.{append_assoc, append-nil}
use iop.Types.Vault.{Folder}
use iop.Text.Search.{is_empty}
use iop.Vault.Folders.{
  FolderNode, NodeMap, set_node, has_node, push_child, register, known_parent, link, link_all,
  build_tree, children_of,
}

abbrev pub id_of : Folder → Text
id_of f = f.id

-- The parent is the folder of that id.
abbrev pub is_child_of : Text → Folder → Bool
is_child_of p f = elim (f.parent_id) [
  | none ↦ false
  | some q ↦ if is_empty q then false else q == p
]

-- No folder of the list is the parent.
abbrev pub is_parentless : List Folder → Folder → Bool
is_parentless folders f = elim (f.parent_id) [
  | none ↦ true
  | some q ↦ if is_empty q then true else not (includes (map id_of folders) q)
]

has_node-set_node :
    (k id : Text) (v : FolderNode) (m : NodeMap)
    → has_node k (set_node id v m) ≡ (id == k || has_node k m)
unfolding set_node
has_node-set_node k id v [] = ground arith
has_node-set_node k id v ((j, w) ∷ m) =
    ground (arith, has_node-set_node k id v m, apply_same (λ x. x == k) j id)

-- The map holds exactly the ids of the folders.
has_node-register :
    (k : Text) (fs : List Folder) (m : NodeMap)
    → has_node k (register fs m) ≡ (has_node k m || includes (map id_of fs) k)
unfolding register
has_node-register k [] m = ground arith
has_node-register k (f ∷ fs) m = ground (
  arith,
  has_node-register k fs (set_node f.id (record { folder = f; children = [] }) m),
  has_node-set_node k f.id (record { folder = f; children = [] }) m,
)

children_of-set_node :
    (k id : Text) (f : Folder) (m : NodeMap)
    → children_of k m ≡ []
    → children_of k (set_node id (record { folder = f; children = [] }) m) ≡ []
unfolding set_node
children_of-set_node k id f [] h = ground arith
children_of-set_node k id f ((j, w) ∷ m) h = elim (Bool-cases (j == k)) [
  | inl e ↦ ground (arith)
  | inr e ↦ ground (arith, children_of-set_node k id f m (ground (arith)))
]

children_of-register :
    (k : Text) (fs : List Folder) (m : NodeMap)
    → children_of k m ≡ []
    → children_of k (register fs m) ≡ []
unfolding register
children_of-register k [] m h = h
children_of-register k (f ∷ fs) m h =
    children_of-register k fs _ (children_of-set_node k f.id f m h)

has_node-push_child :
    (k id child : Text) (m : NodeMap) → has_node k (push_child id child m) ≡ has_node k m
unfolding push_child
has_node-push_child k id child [] = refl
has_node-push_child k id child ((j, w) ∷ m) = ground (arith, has_node-push_child k id child m)

children_of-push_child :
    (k id child : Text) (m : NodeMap)
    → has_node id m ≡ true
    → children_of k (push_child id child m)
      ≡ (if id == k then children_of k m ++ child ∷ [] else children_of k m)
unfolding push_child
children_of-push_child k id child [] h = cc
children_of-push_child k id child ((j, w) ∷ m) h = elim (Bool-cases (j == id)) [
  | inl e ↦ rw e (ground (arith, apply_same (λ (x : Text). x == k) j id e))
  | inr e ↦ rw e (elim (Bool-cases (j == k)) [
    | inl f ↦ rw f (ground (arith, apply_same (λ (x : Text). x == id) j k f, same_comm k id))
    | inr f ↦ rw f (children_of-push_child k id child m (ground (arith)))
  ])
]

abbrev own : Text → Folder → List Text
own k f = if is_child_of k f then f.id ∷ [] else []

abbrev top : NodeMap → Folder → Bool
top m f = not (known_parent f.parent_id m)

has_node-link :
    (k : Text) (p : Option Text) (id : Text) (m : NodeMap) (roots : List Text)
    → has_node k (link p id (m, roots)).0 ≡ has_node k m
unfolding link
has_node-link k none id m roots = refl
has_node-link k (some p) id m roots = ground (arith, has_node-push_child k p id m)

children_of-link :
    (k : Text) (p : Option Text) (id : Text) (m : NodeMap) (roots : List Text)
    → has_node k m ≡ true
    → children_of k (link p id (m, roots)).0
      ≡ children_of k m
        ++ (if elim p [ none ↦ false | some q ↦ if is_empty q then false else q == k ]
            then id ∷ []
            else [])
unfolding link
children_of-link k none id m roots h = sym (append-nil (children_of k m))
children_of-link k (some p) id m roots h = elim (Bool-cases (known_parent (some p) m)) [
  | inl e ↦ rw e (ground (arith, children_of-push_child k p id m, append-nil (children_of k m)))
  | inr e ↦
      rw e
        (ground (arith, append-nil (children_of k m), apply_same (λ (x : Text). has_node x m) p k))
]

roots-link :
    (p : Option Text) (id : Text) (m : NodeMap) (roots : List Text)
    → (link p id (m, roots)).1 ≡ roots ++ (if not (known_parent p m) then id ∷ [] else [])
unfolding link
roots-link none id m roots = refl
roots-link (some p) id m roots = elim (Bool-cases (known_parent (some p) m)) [
  | inl e ↦ rw e (sym (append-nil roots))
  | inr e ↦ rw e refl
]

known_parent-link :
    (q p : Option Text) (id : Text) (m : NodeMap) (roots : List Text)
    → known_parent q (link p id (m, roots)).0 ≡ known_parent q m
known_parent-link none p id m roots = refl
known_parent-link (some q) p id m roots = ground (arith, has_node-link q p id m roots)

map-filter-cons :
    (t : Folder → Bool) (f : Folder) (fs : List Folder)
    → map id_of (filter t (f ∷ fs)) ≡ (if t f then f.id ∷ [] else []) ++ map id_of (filter t fs)
map-filter-cons t f fs = ground (arith)

children_of-link_all :
    (k : Text) (fs : List Folder) (m : NodeMap) (roots : List Text)
    → has_node k m ≡ true
    → children_of k (link_all fs (m, roots)).0
      ≡ children_of k m ++ map id_of (filter (is_child_of k) fs)
unfolding link_all
children_of-link_all k [] m roots h = sym (append-nil (children_of k m))
children_of-link_all k (f ∷ fs) m roots h =
    let acc = link f.parent_id f.id (m, roots) in
    children_of-link_all k fs acc.0 acc.1 (has_node-link k f.parent_id f.id m roots ∙ h)
    ∙ ap (λ (l : List Text). l ++ map id_of (filter (is_child_of k) fs))
        (children_of-link k f.parent_id f.id m roots h)
    ∙ append_assoc (children_of k m) (own k f) (map id_of (filter (is_child_of k) fs))
    ∙ ap (λ (l : List Text). children_of k m ++ l) (sym (map-filter-cons (is_child_of k) f fs))

roots-link_all :
    (t : Folder → Bool) (fs : List Folder) (m : NodeMap) (roots : List Text)
    → ((f : Folder) → top m f ≡ t f)
    → (link_all fs (m, roots)).1 ≡ roots ++ map id_of (filter t fs)
unfolding link_all
roots-link_all t [] m roots h = sym (append-nil roots)
roots-link_all t (f ∷ fs) m roots h =
    let acc = link f.parent_id f.id (m, roots) in
    roots-link_all t fs acc.0 acc.1
      (λ g. ap not (known_parent-link g.parent_id f.parent_id f.id m roots) ∙ h g)
    ∙ ap (λ (l : List Text). l ++ map id_of (filter t fs))
        (roots-link f.parent_id f.id m roots
          ∙ ap (λ (b : Bool). roots ++ (if b then f.id ∷ [] else [])) (h f))
    ∙ append_assoc roots (if t f then f.id ∷ [] else []) (map id_of (filter t fs))
    ∙ ap (λ (l : List Text). roots ++ l) (sym (map-filter-cons t f fs))

parentless_of :
    (p : Option Text) (folders : List Folder)
    → not (known_parent p (register folders [])) ≡ elim p [
      | none ↦ true
      | some q ↦ if is_empty q then true else not (includes (map id_of folders) q)
    ]
parentless_of none folders = refl
parentless_of (some q) folders = ground (arith, has_node-register q folders [])

has_node-link_all :
    (k : Text) (fs : List Folder) (m : NodeMap) (roots : List Text)
    → has_node k (link_all fs (m, roots)).0 ≡ has_node k m
unfolding link_all
has_node-link_all k [] m roots = refl
has_node-link_all k (f ∷ fs) m roots =
    let acc = link f.parent_id f.id (m, roots) in
    has_node-link_all k fs acc.0 acc.1 ∙ has_node-link k f.parent_id f.id m roots

children_of-missing : (k : Text) (m : NodeMap) → has_node k m ≡ false → children_of k m ≡ []
children_of-missing k [] h = refl
children_of-missing k ((j, w) ∷ m) h = ground (arith, children_of-missing k m)

pub children_of-build_tree :
    (folders : List Folder) (id : Text)
    → includes (map id_of folders) id ≡ true
    → children_of id (build_tree folders).0 ≡ map id_of (filter (is_child_of id) folders)
unfolding build_tree
children_of-build_tree folders id h =
    children_of-link_all id folders (register folders []) [] (has_node-register id folders [] ∙ h)
    ∙ ap (λ (l : List Text). l ++ map id_of (filter (is_child_of id) folders))
        (children_of-register id folders [] refl)

-- In the tree that `buildTree` makes, the children of a listed folder are the listed folders that
-- name it as their parent, an id that is not listed has none, and the roots are the folders whose
-- parent is missing, empty or not listed; all in the order of the list.
pub build_tree_lem :
    (folders : List Folder) (id : Text)
    → (children_of id (build_tree folders).0 ≡ (
        if includes (map id_of folders) id
        then map id_of (filter (is_child_of id) folders)
        else []))
      × ((build_tree folders).1 ≡ map id_of (filter (is_parentless folders) folders))
unfolding build_tree
build_tree_lem folders id = (
  elim (Bool-cases (includes (map id_of folders) id)) [
    | inl e ↦ rw e (children_of-build_tree folders id e)
    | inr e ↦ rw e (
        children_of-missing id (build_tree folders).0 (
          has_node-link_all id folders (register folders []) []
          ∙ has_node-register id folders []
          ∙ e))
  ],
  roots-link_all (is_parentless folders) folders (register folders []) []
      (λ f. parentless_of f.parent_id folders),
)
