-- ===== src/Driver/Session/Memory.antt =====
-- driver/cr0.c, driver/cr4.c and driver/msr.c: the blocks that the nodes of a group hold.
use ikgt_usage.Base.{
  ℕ, ◌+◌, ◌≡◌, refl, sym, subst, ap, Bool, true, false, List, [], ◌∷◌, arith, length, if◌then◌else◌,
  ◌==◌, Bool-cases, Option-cases, inl, inr,
}
use ikgt_usage.Driver.Kernel.{Kernel, Trace, kzalloc, kfree}
use ikgt_usage.Driver.Config.{
  Cfg, Node, cr0_node, cr4_node, msr_node, Made, invalid_name, no_memory, item, make_item,
  policy_set, store_enable,
}
use ikgt_usage.Driver.Nodes.{
  ConfigFile, cr0_file, cr4_file, msr_file, Attribute, enable_attr, write_attr, sticky_attr,
  store_attribute, cr0_cfg_store_enable, cr4_cfg_store_enable, msr_cfg_store_enable, cr4_make_item,
  msr_make_item,
}
use ikgt_usage.Driver.Session.{
  Op, mkdir, rmdir, write, same_name, make_item_of, find_node, add_made, make_absent,
  remove_present, write_node, apply_op, run_ops,
}
use ikgt_usage.Driver.Session.Laws.{IsNew, make_item_of-IsNew, store_attribute-name}
use ikgt_usage.Driver.Session.Names.{
  count, AreDistinct, AreDistinct-cons, names_of, find_node-none, find_node-some,
  length-remove_node, count-remove_node,
}

-- The blocks that were allocated, and those that were freed.
unfoldable pub allocated : Trace → ℕ
allocated [] = 0
allocated (kzalloc address ∷ t) = (if address == 0 then 0 else 1) + allocated t
allocated (_ ∷ t) = allocated t

unfoldable pub freed : Trace → ℕ
freed [] = 0
freed (kfree ∷ t) = 1 + freed t
freed (_ ∷ t) = freed t

-- The blocks that are held grow from `k` to `k'` as the calls grow from `t` to `t'`.
abbrev pub Moves : ℕ → ℕ → Trace → Trace → Type 0
Moves k k' t t' = allocated t' + (freed t + k) ≡ freed t' + (allocated t + k')

policy_set-Moves :
    (kernel : Kernel) (node : Node) (cfg : Cfg) (enable : Bool) (k : ℕ) (t : Trace)
    → Moves k k t (policy_set kernel node cfg enable t).1
unfolding policy_set allocated freed
policy_set-Moves kernel node cfg enable k t = ground arith

store_enable-Moves :
    (kernel : Kernel) (node : Node) (cfg : Cfg) (page : List ℕ) (k : ℕ) (t : Trace)
    → Moves k k t (store_enable kernel node cfg page t).1
unfolding store_enable
store_enable-Moves kernel node cfg page k t =
    ground
      (arith, policy_set-Moves kernel node cfg true k t, policy_set-Moves kernel node cfg false k t)

store_attribute-Moves :
    (kernel : Kernel) (file : ConfigFile) (attribute : Attribute) (cfg : Cfg) (page : List ℕ)
    (k : ℕ) (t : Trace)
    → Moves k k t (store_attribute kernel file attribute cfg page t).1
unfolding store_attribute cr0_cfg_store_enable cr4_cfg_store_enable msr_cfg_store_enable
store_attribute-Moves kernel cr0_file enable_attr cfg page k t =
    store_enable-Moves kernel cr0_node cfg page k t
store_attribute-Moves kernel cr0_file write_attr cfg page k t = omega arith
store_attribute-Moves kernel cr0_file sticky_attr cfg page k t = omega arith
store_attribute-Moves kernel cr4_file enable_attr cfg page k t =
    store_enable-Moves kernel cr4_node cfg page k t
store_attribute-Moves kernel cr4_file write_attr cfg page k t = omega arith
store_attribute-Moves kernel cr4_file sticky_attr cfg page k t = omega arith
store_attribute-Moves kernel msr_file enable_attr cfg page k t =
    store_enable-Moves kernel msr_node cfg page k t
store_attribute-Moves kernel msr_file write_attr cfg page k t = omega arith
store_attribute-Moves kernel msr_file sticky_attr cfg page k t = omega arith

-- The nodes are distinct, and the blocks grow with them.
pub record IsHeld (nodes nodes' : List Cfg) (t t' : Trace) : Type 0 where
  pub distinct : AreDistinct (names_of nodes')
  pub blocks : Moves (length nodes) (length nodes') t t'

add_made-distinct :
    (file : ConfigFile) (name : List ℕ) (nodes : List Cfg) (made : Made)
    → IsNew file name made
    → count name (names_of nodes) ≡ 0
    → AreDistinct (names_of nodes)
    → AreDistinct (names_of (add_made nodes made))
add_made-distinct file name nodes invalid_name new absent d = d
add_made-distinct file name nodes no_memory new absent d = d
add_made-distinct file name nodes (item cfg) new absent d =
    AreDistinct-cons cfg.name (names_of nodes)
      (subst (λ n. count n (names_of nodes) ≡ 0) (sym new.1) absent) d

make_item-Moves :
    (kernel : Kernel) (node : Node) (name : List ℕ) (nodes : List Cfg) (t : Trace)
    → Moves
        (length nodes)
        (length (add_made nodes (make_item kernel node name t).0))
        t
        (make_item kernel node name t).1
unfolding make_item allocated freed
make_item-Moves kernel node name nodes t = ground arith

make_item_of-Moves :
    (kernel : Kernel) (file : ConfigFile) (name : List ℕ) (nodes : List Cfg) (t : Trace)
    → Moves
        (length nodes)
        (length (add_made nodes (make_item_of kernel file name t).0))
        t
        (make_item_of kernel file name t).1
unfolding make_item_of cr4_make_item msr_make_item
make_item_of-Moves kernel cr0_file name nodes t = make_item-Moves kernel cr0_node name nodes t
make_item_of-Moves kernel cr4_file name nodes t = make_item-Moves kernel cr4_node name nodes t
make_item_of-Moves kernel msr_file name nodes t = make_item-Moves kernel msr_node name nodes t

module _ (kernel : Kernel) (file : ConfigFile) where
  write_node_lem :
      (name : List ℕ) (attribute : Attribute) (page : List ℕ) (nodes : List Cfg) (k : ℕ) (t : Trace)
      → (names_of (write_node kernel file name attribute page nodes t).0 ≡ names_of nodes)
        × (length (write_node kernel file name attribute page nodes t).0 ≡ length nodes)
        × Moves k k t (write_node kernel file name attribute page nodes t).1
  unfolding write_node
  write_node_lem name attribute page [] k t = (refl, refl, omega arith)
  write_node_lem name attribute page (n ∷ nodes) k t = elim (Bool-cases (same_name n.name name)) [
    | inl e ↦ rw e (
      ap (λ m. m ∷ names_of nodes) (store_attribute-name kernel file attribute n page t),
      refl,
      store_attribute-Moves kernel file attribute n page k t,
    )
    | inr e ↦
        let (names, size, moves) = write_node_lem name attribute page nodes k t in
        rw e (ap (n.name ∷◌) names, omega (arith, size), moves)
  ]

  make_absent-IsHeld :
      (name : List ℕ) (nodes : List Cfg) (t : Trace)
      → AreDistinct (names_of nodes)
      → IsHeld nodes
          (make_absent kernel file name nodes (find_node name nodes) t).0
          t
          (make_absent kernel file name nodes (find_node name nodes) t).1
  unfolding make_absent
  make_absent-IsHeld name nodes t d = elim (Option-cases (find_node name nodes)) [
    | inr (cfg, e) ↦ rw e (record { distinct = d; blocks = omega arith })
    | inl e ↦ rw e (record {
      distinct =
          add_made-distinct file name nodes (make_item_of kernel file name t).0
            (make_item_of-IsNew kernel file name t) (find_node-none name nodes e) d;
      blocks = make_item_of-Moves kernel file name nodes t;
    })
  ]

  remove_present-IsHeld :
      (name : List ℕ) (nodes : List Cfg) (t : Trace)
      → AreDistinct (names_of nodes)
      → IsHeld nodes
          (remove_present name nodes (find_node name nodes) t).0
          t
          (remove_present name nodes (find_node name nodes) t).1
  unfolding remove_present freed allocated
  remove_present-IsHeld name nodes t d = elim (Option-cases (find_node name nodes)) [
    | inl e ↦ rw e (record { distinct = d; blocks = omega arith })
    | inr (cfg, e) ↦ rw e (record {
      distinct = λ m. omega (arith, count-remove_node m name nodes, d m);
      blocks =
          omega (arith, length-remove_node name nodes, d name, find_node-some name nodes cfg e);
    })
  ]

  pub apply_op-IsHeld :
      (op : Op) (nodes : List Cfg) (t : Trace)
      → AreDistinct (names_of nodes)
      → IsHeld nodes (apply_op kernel file op nodes t).0 t (apply_op kernel file op nodes t).1
  unfolding apply_op
  apply_op-IsHeld (mkdir name) nodes t d = make_absent-IsHeld name nodes t d
  apply_op-IsHeld (rmdir name) nodes t d = remove_present-IsHeld name nodes t d
  apply_op-IsHeld (write name attribute page) nodes t d =
      let (names, size, moves) = write_node_lem name attribute page nodes (length nodes) t in
      record { distinct = subst AreDistinct (sym names) d; blocks = rw size moves }

-- In every session with the nodes of CR0, CR4 or the MSRs that starts with distinct names, the names stay
-- distinct and each node holds exactly one block: as many blocks are allocated and not freed again as
-- there are more nodes than at first. The messages add nothing to it.
pub run_ops-IsHeld :
    (kernel : Kernel) (file : ConfigFile) (ops : List Op) (nodes : List Cfg) (t : Trace)
    → AreDistinct (names_of nodes)
    → IsHeld nodes (run_ops kernel file ops nodes t).0 t (run_ops kernel file ops nodes t).1
unfolding run_ops
run_ops-IsHeld kernel file [] nodes t d = record { distinct = d; blocks = omega arith }
run_ops-IsHeld kernel file (op ∷ ops) nodes t d =
    let next = apply_op kernel file op nodes t in
    let first = apply_op-IsHeld kernel file op nodes t d in
    let rest = run_ops-IsHeld kernel file ops next.0 next.1 first.distinct in
    record { distinct = rest.distinct; blocks = omega (arith, first.blocks, rest.blocks) }
