-- ===== src/Driver/Tree/Groups.antt =====
-- driver/configfs_setup.c: the groups of the driver's directory, by their names and their size.
use ikgt_usage.Base.{
  ℕ, ◌+◌, ◌≤◌, ◌≡◌, ◌≢◌, refl, subst, List, [], ◌∷◌, map, Option, none, some, arith, length, All,
  if_both, Bool-cases, inl, inr,
}
use ikgt_usage.Driver.Config.{Cfg}
use ikgt_usage.Driver.Nodes.{ConfigFile}
use ikgt_usage.Driver.Agent.{no_children}
use ikgt_usage.Driver.Session.{same_name}
use ikgt_usage.Driver.Session.Laws.{HasRow}
use ikgt_usage.Driver.Session.Names.{count, AreDistinct, names_of}
use ikgt_usage.Driver.Tree.{Group, file_of, find_group, without}

abbrev pub group_names : List Group → List (List ℕ)
group_names = map (λ g. g.name)

pub find_group-none :
    (name : List ℕ) (groups : List Group)
    → find_group name groups ≡ none
    → count name (group_names groups) ≡ 0
unfolding find_group count
find_group-none name [] h = refl
find_group-none name (g ∷ groups) h = ground (arith, h, find_group-none name groups)

pub count-without :
    (m name : List ℕ) (groups : List Group)
    → count m (group_names (without name groups)) ≤ count m (group_names groups)
unfolding without count
count-without m name [] = omega arith
count-without m name (g ∷ groups) = ground (arith, count-without m name groups)

-- The nodes of a group are those of its file, and none if it has no file.
abbrev pub HasRows : Option ConfigFile → List Cfg → Type 0
HasRows none nodes = nodes ≡ []
HasRows (some file) nodes = All (HasRow file) nodes

-- A group with a type, whose nodes have distinct names that stand in the table of its file.
pub record IsGroup (g : Group) : Type 0 where
  pub typed : g.children ≢ no_children
  pub distinct : AreDistinct (names_of g.nodes)
  pub rows : HasRows (file_of g.children) g.nodes

-- The blocks that the directory holds: one for each group, and one for each node.
unfoldable pub size : List Group → ℕ
size [] = 0
size (g ∷ groups) = 1 + length g.nodes + size groups

pub record IsSound (groups : List Group) : Type 0 where
  pub names : AreDistinct (group_names groups)
  pub groups_sound : All IsGroup groups

size-without_absent :
    (name : List ℕ) (groups : List Group)
    → count name (group_names groups) ≡ 0
    → size (without name groups) ≡ size groups
unfolding without count size
size-without_absent name [] h = refl
size-without_absent name (g ∷ groups) h = ground (arith, h, size-without_absent name groups)

pub size-without :
    (name : List ℕ) (groups : List Group) (g : Group)
    → find_group name groups ≡ some g
    → count name (group_names groups) ≤ 1
    → size (without name groups) + (1 + length g.nodes) ≡ size groups
unfolding without count size find_group
size-without name [] g h d = cc
size-without name (x ∷ groups) g h d =
    ground (arith, h, d, size-without name groups g, size-without_absent name groups)

pub without-IsGroup :
    (name : List ℕ) (groups : List Group) → All IsGroup groups → All IsGroup (without name groups)
unfolding without
without-IsGroup name [] h = tt
without-IsGroup name (g ∷ groups) h =
    if_both (All IsGroup) (same_name g.name name) (without name groups) (g ∷ without name groups)
      (without-IsGroup name groups h.1) (h.0, without-IsGroup name groups h.1)

pub find_group-IsGroup :
    (name : List ℕ) (groups : List Group) (g : Group)
    → All IsGroup groups
    → find_group name groups ≡ some g
    → IsGroup g
unfolding find_group
find_group-IsGroup name [] g h e = cc
find_group-IsGroup name (x ∷ groups) g h e = elim (Bool-cases (same_name x.name name)) [
  | inl hit ↦ let same : x ≡ g = ground (arith, e, hit) in subst IsGroup same h.0
  | inr miss ↦ find_group-IsGroup name groups g h.1 (ground (arith, e, miss))
]

pub no_rows : (o : Option ConfigFile) → HasRows o []
no_rows none = refl
no_rows (some file) = tt
