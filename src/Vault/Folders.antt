-- ===== src/Vault/Folders.antt =====
-- `buildTree` of frontend/src/pages/Vault/FolderTree.tsx. A node is one object, which the map, the
-- roots and the children of another node share: a reference to it is the key of the map.
pub mod Shape
pub mod Shown
use iop.Base.{
  Bool, true, false, List, [], ◌∷◌, ◌++◌, Option, none, some, Text, if◌then◌else◌, text_eq, ◌==◌,
}
use iop.Types.Vault.{Folder}
use iop.Text.Search.{is_empty}

pub record FolderNode : Type 0 where
  pub folder : Folder
  pub children : List Text

-- `Map<string, FolderNode>`
abbrev pub NodeMap : Type 0
NodeMap = List (Text × FolderNode)

-- `map.set(id, node)`
unfoldable pub set_node : Text → FolderNode → NodeMap → NodeMap
set_node id v [] = (id, v) ∷ []
set_node id v ((j, w) ∷ m) = if j == id then (j, v) ∷ m else (j, w) ∷ set_node id v m

-- `map.has(id)`
abbrev pub has_node : Text → NodeMap → Bool
has_node id [] = false
has_node id ((j, w) ∷ m) = if j == id then true else has_node id m

abbrev pub with_child : Text → FolderNode → FolderNode
with_child child w = record w { children = w.children ++ child ∷ [] }

-- `map.get(id).children.push(child)`
unfoldable pub push_child : Text → Text → NodeMap → NodeMap
push_child id child [] = []
push_child id child ((j, w) ∷ m) =
    if j == id then (j, with_child child w) ∷ m else (j, w) ∷ push_child id child m

-- The first loop.
unfoldable pub register : List Folder → NodeMap → NodeMap
unfolding set_node
register [] m = m
register (f ∷ fs) m = register fs (set_node f.id (record { folder = f; children = [] }) m)

-- `f.parent_id && map.has(f.parent_id)`
abbrev pub known_parent : Option Text → NodeMap → Bool
known_parent none m = false
known_parent (some p) m = if is_empty p then false else has_node p m

-- One round of the second loop, over the map and the roots.
unfoldable pub link : Option Text → Text → NodeMap × List Text → NodeMap × List Text
unfolding push_child
link none id (m, roots) = (m, roots ++ id ∷ [])
link (some p) id (m, roots) =
    if known_parent (some p) m then (push_child p id m, roots) else (m, roots ++ id ∷ [])

unfoldable pub link_all : List Folder → NodeMap × List Text → NodeMap × List Text
unfolding link
link_all [] acc = acc
link_all (f ∷ fs) acc = link_all fs (link f.parent_id f.id acc)

unfoldable pub build_tree : List Folder → NodeMap × List Text
unfolding register link_all
build_tree folders = link_all folders (register folders [], [])

-- The children that the map holds for an id.
abbrev pub children_of : Text → NodeMap → List Text
children_of id [] = []
children_of id ((j, w) ∷ m) = if j == id then w.children else children_of id m
