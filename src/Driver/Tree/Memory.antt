-- ===== src/Driver/Tree/Memory.antt =====
-- driver/configfs_setup.c with the files of its groups: the names in the driver's directory and the blocks
-- that it holds.
use ikgt_usage.Base.{
  ℕ, ◌+◌, ◌≡◌, ◌≢◌, refl, sym, subst, ap, List, [], ◌∷◌, Option, none, some, arith, length, All,
  ==_false, Bool-cases, Option-cases, inl, inr,
}
use native.Mathlib.Decide.{ℕ_discrete}
use ikgt_usage.Driver.Kernel.{Kernel, Trace, kfree}
use ikgt_usage.Driver.Config.{Cfg}
use ikgt_usage.Driver.Nodes.{ConfigFile}
use ikgt_usage.Driver.Agent.{
  Children, cr0_children, cr4_children, msr_children, log_children, no_children, children_of,
  group_children_make_group,
}
use ikgt_usage.Driver.Types.{
  children_type, group_children_type, cr0_children_type, cr4_children_type, msr_children_type,
  log_children_type,
}
use ikgt_usage.Driver.Session.{Op, same_name}
use ikgt_usage.Driver.Session.Laws.{apply_op-HasRow}
use ikgt_usage.Driver.Session.Names.{AreDistinct, AreDistinct-cons, none-AreDistinct, names_of}
use ikgt_usage.Driver.Session.Memory.{allocated, freed, Moves, apply_op-IsHeld}
use ikgt_usage.Driver.Tree.{
  Group, TreeOp, make_group, remove_group, inside, file_of, find_group, new_group, add_group,
  without, release_group, drop_group, in_nodes, in_group, in_groups, apply_tree_op, run_tree,
}
use ikgt_usage.Driver.Tree.Groups.{
  group_names, find_group-none, count-without, HasRows, IsGroup, size, IsSound, size-without,
  without-IsGroup, find_group-IsGroup, no_rows,
}

-- The directory is sound, and the blocks grow with it.
pub record Grows (groups groups' : List Group) (t t' : Trace) : Type 0 where
  pub sound : IsSound groups'
  pub blocks : Moves (size groups) (size groups') t t'

pub stays : (groups : List Group) (t : Trace) → IsSound groups → Grows groups groups t t
stays groups t s = record { sound = s; blocks = omega arith }

-- The group is still there after an operation on its nodes, with the blocks of its nodes.
record IsSameGroup (g g' : Group) (t t' : Trace) : Type 0 where
  name : g'.name ≡ g.name
  group : IsGroup g'
  blocks : Moves (length g.nodes) (length g'.nodes) t t'

module _ (kernel : Kernel) (op : Op) where
  in_nodes_lem :
      (o : Option ConfigFile) (nodes : List Cfg) (t : Trace)
      → HasRows o nodes
      → AreDistinct (names_of nodes)
      → HasRows o (in_nodes kernel op o nodes t).0
        × AreDistinct (names_of (in_nodes kernel op o nodes t).0)
        × Moves
            (length nodes)
            (length (in_nodes kernel op o nodes t).0)
            t
            (in_nodes kernel op o nodes t).1
  unfolding in_nodes
  in_nodes_lem none nodes t r d = (r, d, omega arith)
  in_nodes_lem (some file) nodes t r d =
      let held = apply_op-IsHeld kernel file op nodes t d in
      (apply_op-HasRow kernel file op nodes t r, held.distinct, held.blocks)

  in_group-IsSameGroup :
      (g : Group) (t : Trace)
      → IsGroup g
      → IsSameGroup g (in_group kernel op g t).0 t (in_group kernel op g t).1
  unfolding in_group
  in_group-IsSameGroup g t h =
      let (rows, distinct, blocks) =
        in_nodes_lem (file_of g.children) g.nodes t h.rows h.distinct in
      record {
        name = refl;
        group = record { typed = h.typed; distinct = distinct; rows = rows };
        blocks = blocks;
      }

  -- The names and the groups after the operation in one of them, and the blocks, beside `k` others.
  in_groups_lem :
      (name : List ℕ) (groups : List Group) (k : ℕ) (t : Trace)
      → All IsGroup groups
      → (group_names (in_groups kernel name op groups t).0 ≡ group_names groups)
        × All IsGroup (in_groups kernel name op groups t).0
        × Moves
            (k + size groups)
            (k + size (in_groups kernel name op groups t).0)
            t
            (in_groups kernel name op groups t).1
  unfolding in_groups size
  in_groups_lem name [] k t h = (refl, tt, omega arith)
  in_groups_lem name (g ∷ groups) k t h = elim (Bool-cases (same_name g.name name)) [
    | inl e ↦
        let same = in_group-IsSameGroup g t h.0 in
        rw e (
          ap (λ n. n ∷ group_names groups) same.name,
          (same.group, h.1),
          omega (arith, same.blocks),
        )
    | inr e ↦
        let (names, sound, blocks) = in_groups_lem name groups (k + 1 + length g.nodes) t h.1 in
        rw e (ap (g.name ∷◌) names, (h.0, sound), omega (arith, blocks))
  ]

-- A group with a type is released.
release_group_lem :
    (c : Children) (t : Trace) → c ≢ no_children → (release_group (children_type c) t).1 ≡ kfree ∷ t
unfolding release_group children_type cr0_children_type cr4_children_type msr_children_type
    log_children_type
release_group_lem cr0_children t h = refl
release_group_lem cr4_children t h = refl
release_group_lem msr_children t h = refl
release_group_lem log_children t h = refl
release_group_lem no_children t h = absurd (h refl)

-- A group with a type is added.
new_group_lem :
    (name : List ℕ) (c : Children) (groups : List Group)
    → c ≢ no_children
    → new_group name (some c) groups ≡ record { name = name; children = c; nodes = [] } ∷ groups
new_group_lem name cr0_children groups h = refl
new_group_lem name cr4_children groups h = refl
new_group_lem name msr_children groups h = refl
new_group_lem name log_children groups h = refl
new_group_lem name no_children groups h = absurd (h refl)

module _ (kernel : Kernel) where
  add_group-Grows :
      (name : List ℕ) (groups : List Group) (t : Trace)
      → children_of name ≢ no_children
      → IsSound groups
      → Grows groups
          (add_group kernel name groups (find_group name groups) t).0
          t
          (add_group kernel name groups (find_group name groups) t).1
  unfolding add_group group_children_type group_children_make_group allocated freed size
  add_group-Grows name groups t known s = elim (Option-cases (find_group name groups)) [
    | inr (g, e) ↦ rw e (stays groups t s)
    | inl e ↦ rw e (elim (ℕ_discrete (kernel.kzalloc_address t) 0) [
      | yes z ↦ rw z (record { sound = s; blocks = omega arith })
      | no nz ↦
          rw
            (
              ==_false (kernel.kzalloc_address t) 0 nz,
              new_group_lem name (children_of name) groups known,
            )
            (record {
              sound = record {
                names =
                    AreDistinct-cons name (group_names groups) (find_group-none name groups e)
                      s.names;
                groups_sound = (
                  record {
                    typed = known;
                    distinct = none-AreDistinct;
                    rows = no_rows (file_of (children_of name));
                  },
                  s.groups_sound,
                );
              };
              blocks = ground arith;
            })
    ])
  ]

  drop_group-Grows :
      (name : List ℕ) (groups : List Group) (t : Trace)
      → IsSound groups
      → Grows groups
          (drop_group name groups (find_group name groups) t).0
          t
          (drop_group name groups (find_group name groups) t).1
  unfolding drop_group allocated freed
  drop_group-Grows name groups t s = elim (Option-cases (find_group name groups)) [
    | inl e ↦ rw e (stays groups t s)
    | inr (g, e) ↦
        rw e (emptied g.nodes g (find_group-IsGroup name groups g s.groups_sound e) e refl)
  ]
    where
      emptied :
          (nodes : List Cfg) (g : Group)
          → IsGroup g
          → find_group name groups ≡ some g
          → g.nodes ≡ nodes
          → Grows groups
              (drop_group name groups (some g) t).0
              t
              (drop_group name groups (some g) t).1
      emptied [] g h e empty =
          let left : (drop_group name groups (some g) t) ≡ (without name groups, kfree ∷ t) =
            ground (arith, empty, release_group_lem g.children t h.typed) in
          rw left (record {
            sound = record {
              names = λ m. omega (arith, count-without m name groups, s.names m);
              groups_sound = without-IsGroup name groups s.groups_sound;
            };
            blocks = ground (arith, empty, size-without name groups g e (s.names name));
          })
      emptied (n ∷ nodes) g h e full =
          let left : (drop_group name groups (some g) t) ≡ (groups, t) = ground (arith, full) in
          rw left (stays groups t s)

-- The groups that an operation makes are among the four of the driver.
abbrev pub IsKnown : TreeOp → Type 0
IsKnown (make_group name) = children_of name ≢ no_children
IsKnown (remove_group name) = Unit
IsKnown (inside name op) = Unit

apply_tree_op-Grows :
    (kernel : Kernel) (op : TreeOp) (groups : List Group) (t : Trace)
    → IsKnown op
    → IsSound groups
    → Grows groups (apply_tree_op kernel op groups t).0 t (apply_tree_op kernel op groups t).1
unfolding apply_tree_op
apply_tree_op-Grows kernel (make_group name) groups t known s =
    add_group-Grows kernel name groups t known s
apply_tree_op-Grows kernel (remove_group name) groups t known s =
    drop_group-Grows kernel name groups t s
apply_tree_op-Grows kernel (inside name op) groups t known s =
    let (names, sound, blocks) = in_groups_lem kernel op name groups 0 t s.groups_sound in
    record {
      sound = record { names = subst AreDistinct (sym names) s.names; groups_sound = sound };
      blocks = omega (arith, blocks);
    }

-- However the user makes, writes and removes groups and nodes, in any order, as long as the groups are
-- among the driver's four: each name stands in its directory once, as configfs has it, each node's name is
-- in the table of its group's file, and the number of blocks taken less the number of blocks freed grows by
-- exactly the number of groups and nodes that are there more, so that the messages add nothing to it. Which
-- block a call frees is not stated.
pub run_tree-Grows :
    (kernel : Kernel) (ops : List TreeOp) (groups : List Group) (t : Trace)
    → All IsKnown ops
    → IsSound groups
    → Grows groups (run_tree kernel ops groups t).0 t (run_tree kernel ops groups t).1
unfolding run_tree
run_tree-Grows kernel [] groups t known s = stays groups t s
run_tree-Grows kernel (op ∷ ops) groups t known s =
    let next = apply_tree_op kernel op groups t in
    let first = apply_tree_op-Grows kernel op groups t known.0 s in
    let rest = run_tree-Grows kernel ops next.0 next.1 known.1 first.sound in
    record { sound = rest.sound; blocks = omega (arith, first.blocks, rest.blocks) }
