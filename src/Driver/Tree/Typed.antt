-- ===== src/Driver/Tree/Typed.antt =====
-- driver/configfs_setup.c with the files of its groups: the nodes and the messages in their C types.
use ikgt_usage.Base.{
  ℕ, ◌≡◌, refl, List, [], ◌∷◌, Option, none, some, All, Bool-cases, inl, inr, if_both,
}
use ikgt_usage.Driver.Kernel.{Kernel, Trace}
use ikgt_usage.Driver.Config.{Cfg}
use ikgt_usage.Driver.Nodes.{ConfigFile}
use ikgt_usage.Driver.Agent.{
  Children, cr0_children, cr4_children, msr_children, log_children, no_children,
  group_children_make_group,
}
use ikgt_usage.Driver.Types.{
  children_type, group_children_type, cr0_children_type, cr4_children_type, msr_children_type,
  log_children_type,
}
use ikgt_usage.Driver.Session.{Op, same_name}
use ikgt_usage.Driver.Session.Typed.{CfgFits, CallFits, Fits, ReadsWords}
use ikgt_usage.Driver.Session.Typed.Operations.{apply_op-Fits}
use ikgt_usage.Driver.Tree.{
  Group, TreeOp, make_group, remove_group, inside, file_of, find_group, new_group, without,
  add_group, release_group, drop_group, in_nodes, in_group, in_groups, apply_tree_op, run_tree,
}

abbrev pub GroupFits : Group → Type 0
GroupFits g = All CfgFits g.nodes

-- The groups and the calls, as an operation leaves them.
abbrev pub TreeFits : List Group × Trace → Type 0
TreeFits (groups, t) = All GroupFits groups × All CallFits t

without-GroupFits :
    (name : List ℕ) (groups : List Group)
    → All GroupFits groups
    → All GroupFits (without name groups)
unfolding without
without-GroupFits name [] h = tt
without-GroupFits name (g ∷ groups) h =
    if_both (All GroupFits) (same_name g.name name) (without name groups) (g ∷ without name groups)
      (without-GroupFits name groups h.1) (h.0, without-GroupFits name groups h.1)

release_group-CallFits :
    (c : Children) (t : Trace) → All CallFits t → All CallFits (release_group (children_type c) t).1
unfolding release_group children_type cr0_children_type cr4_children_type msr_children_type
    log_children_type
release_group-CallFits cr0_children t a = (tt, a)
release_group-CallFits cr4_children t a = (tt, a)
release_group-CallFits msr_children t a = (tt, a)
release_group-CallFits log_children t a = (tt, a)
release_group-CallFits no_children t a = a

new_group-GroupFits :
    (name : List ℕ) (made : Option Children) (groups : List Group)
    → All GroupFits groups
    → All GroupFits (new_group name made groups)
new_group-GroupFits name none groups h = h
new_group-GroupFits name (some cr0_children) groups h = (tt, h)
new_group-GroupFits name (some cr4_children) groups h = (tt, h)
new_group-GroupFits name (some msr_children) groups h = (tt, h)
new_group-GroupFits name (some log_children) groups h = (tt, h)
new_group-GroupFits name (some no_children) groups h = h

dropped-TreeFits :
    (name : List ℕ) (groups : List Group) (g : Group) (nodes : List Cfg) (t : Trace)
    → g.nodes ≡ nodes
    → TreeFits (groups, t)
    → TreeFits (drop_group name groups (some g) t)
unfolding drop_group without
dropped-TreeFits name groups g [] t e h =
    rw (drop_group, e) (without-GroupFits name groups h.0, release_group-CallFits g.children t h.1)
dropped-TreeFits name groups g (_ ∷ _) t e h = rw (drop_group, e) h

drop_group-TreeFits :
    (name : List ℕ) (groups : List Group) (o : Option Group) (t : Trace)
    → TreeFits (groups, t)
    → TreeFits (drop_group name groups o t)
unfolding drop_group
drop_group-TreeFits name groups none t h = h
drop_group-TreeFits name groups (some g) t h = dropped-TreeFits name groups g g.nodes t refl h

module _ (kernel : Kernel) (words : ReadsWords kernel) where
  add_group-TreeFits :
      (name : List ℕ) (groups : List Group) (o : Option Group) (t : Trace)
      → TreeFits (groups, t)
      → TreeFits (add_group kernel name groups o t)
  unfolding add_group group_children_type group_children_make_group
  add_group-TreeFits name groups (some g) t h = h
  add_group-TreeFits name groups none t h = (new_group-GroupFits name _ groups h.0, (tt, h.1))

  in_nodes-Fits :
      (op : Op) (o : Option ConfigFile) (nodes : List Cfg) (t : Trace)
      → Fits (nodes, t)
      → Fits (in_nodes kernel op o nodes t)
  unfolding in_nodes
  in_nodes-Fits op none nodes t h = h
  in_nodes-Fits op (some file) nodes t h = apply_op-Fits kernel words file op nodes t h

  in_groups-TreeFits :
      (name : List ℕ) (op : Op) (groups : List Group) (t : Trace)
      → TreeFits (groups, t)
      → TreeFits (in_groups kernel name op groups t)
  unfolding in_groups in_group
  in_groups-TreeFits name op [] t h = h
  in_groups-TreeFits name op (g ∷ groups) t h = elim (Bool-cases (same_name g.name name)) [
    | inl e ↦
        let (f, a) = in_nodes-Fits op (file_of g.children) g.nodes t (h.0.0, h.1) in
        rw e ((f, h.0.1), a)
    | inr e ↦ let (f, a) = in_groups-TreeFits name op groups t (h.0.1, h.1) in rw e ((h.0.0, f), a)
  ]

  -- The driver's directory in its C types. If the numbers that `kstrtoul` reads are words, then whatever
  -- the user does, from groups whose nodes have an 8-bit action and a 64-bit sticky value, and calls whose
  -- messages fit, the nodes still have such values, and every message that is sent has its fields in
  -- the 32 and 64 bits of policy_update_rec_t.
  pub run_tree-TreeFits :
      (ops : List TreeOp) (groups : List Group) (t : Trace)
      → TreeFits (groups, t)
      → TreeFits (run_tree kernel ops groups t)
  unfolding run_tree apply_tree_op
  run_tree-TreeFits [] groups t h = h
  run_tree-TreeFits (make_group name ∷ ops) groups t h =
      run_tree-TreeFits ops _ _ (add_group-TreeFits name groups (find_group name groups) t h)
  run_tree-TreeFits (remove_group name ∷ ops) groups t h =
      run_tree-TreeFits ops _ _ (drop_group-TreeFits name groups (find_group name groups) t h)
  run_tree-TreeFits (inside name op ∷ ops) groups t h =
      run_tree-TreeFits ops _ _ (in_groups-TreeFits name op groups t h)
