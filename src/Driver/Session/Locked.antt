-- ===== src/Driver/Session/Locked.antt =====
-- driver/cr0.c, driver/cr4.c and driver/msr.c: a locked node in a session.
use ikgt_usage.Base.{
  ℕ, ◌≡◌, ◌≢◌, refl, sym, ap, subst, ◌∙◌, true, false, List, [], ◌∷◌, Option, none, some, arith,
  All, if_both, Bool-cases, inl, inr,
}
use ikgt_usage.Driver.Kernel.{Kernel, Trace}
use ikgt_usage.Driver.Config.{Cfg, Made, invalid_name, no_memory, item}
use ikgt_usage.Driver.Nodes.{ConfigFile, Attribute, store_attribute}
use ikgt_usage.Driver.Nodes.Lock.{store_attribute-locked}
use ikgt_usage.Driver.Session.Names.{same_name-eq}
use ikgt_usage.Driver.Session.{
  Op, mkdir, rmdir, write, same_name, make_item_of, find_node, add_made, make_absent,
  remove_present, remove_node, write_node, apply_op, run_ops,
}
use ikgt_usage.Driver.Session.Laws.{store_attribute-name, IsNew, make_item_of-IsNew}

-- An operation that does not remove the name.
abbrev pub Spares : List ℕ → Op → Type 0
Spares name (mkdir other) = Unit
Spares name (rmdir other) = other ≢ name
Spares name (write other attribute page) = Unit

find-hit :
    (name : List ℕ) (n : Cfg) (nodes : List Cfg)
    → same_name n.name name ≡ true
    → find_node name (n ∷ nodes) ≡ some n
unfolding find_node
find-hit name n nodes h = rw h refl

find-skip :
    (name : List ℕ) (n : Cfg) (nodes : List Cfg)
    → same_name n.name name ≡ false
    → find_node name (n ∷ nodes) ≡ find_node name nodes
unfolding find_node
find-skip name n nodes h = rw h refl

none-some : {c : Cfg} → none ≢ some c
none-some e = cc

module _ (kernel : Kernel) (file : ConfigFile) (name : List ℕ) (cfg : Cfg)
    (locked : cfg.locked ≡ true) where
  found_first :
      (n : Cfg) (nodes : List Cfg)
      → same_name n.name name ≡ true
      → find_node name (n ∷ nodes) ≡ some cfg
      → n ≡ cfg
  unfolding find_node
  found_first n nodes e h = ground (arith, e)

  write_node-locked :
      (other : List ℕ) (attribute : Attribute) (page : List ℕ) (nodes : List Cfg) (t : Trace)
      → find_node name nodes ≡ some cfg
      → find_node name (write_node kernel file other attribute page nodes t).0 ≡ some cfg
  unfolding write_node
  write_node-locked other attribute page [] t h = h
  write_node-locked other attribute page (n ∷ nodes) t h =
      let stored : Cfg = (store_attribute kernel file attribute n page t).0.1 in
      elim (Bool-cases (same_name n.name other)) [
        | inl e ↦ rw e (elim (Bool-cases (same_name n.name name)) [
          | inl e' ↦
              let is_locked : n.locked ≡ true =
                ap (λ (x : Cfg). x.locked) (found_first n nodes e' h) ∙ locked in
              subst (λ x. find_node name (x ∷ nodes) ≡ some cfg)
                (sym (store_attribute-locked kernel file attribute n page t is_locked).0) h
          | inr e' ↦
              find-skip name stored nodes (
                ap (λ s. same_name s name) (store_attribute-name kernel file attribute n page t)
                ∙ e')
              ∙ sym (find-skip name n nodes e')
              ∙ h
        ])
        | inr e ↦ rw e (elim (Bool-cases (same_name n.name name)) [
          | inl e' ↦ find-hit name n _ e' ∙ sym (find-hit name n nodes e') ∙ h
          | inr e' ↦
              find-skip name n _ e'
              ∙ write_node-locked other attribute page nodes t (sym (find-skip name n nodes e') ∙ h)
        ])
      ]

  remove_node-locked :
      (other : List ℕ) (nodes : List Cfg)
      → other ≢ name
      → find_node name nodes ≡ some cfg
      → find_node name (remove_node other nodes) ≡ some cfg
  unfolding remove_node
  remove_node-locked other [] ne h = h
  remove_node-locked other (n ∷ nodes) ne h = elim (Bool-cases (same_name n.name name)) [
    | inl e ↦
        let kept : same_name n.name other ≡ false = elim (Bool-cases (same_name n.name other)) [
          | inl e' ↦ absurd (ne (sym (same_name-eq n.name other e') ∙ same_name-eq n.name name e))
          | inr e' ↦ e'
        ] in
        rw kept (find-hit name n (remove_node other nodes) e ∙ sym (find-hit name n nodes e) ∙ h)
    | inr e ↦
        let rest : find_node name (remove_node other nodes) ≡ some cfg =
          remove_node-locked other nodes ne (sym (find-skip name n nodes e) ∙ h) in
        if_both (λ ns. find_node name ns ≡ some cfg) (same_name n.name other)
          (remove_node other nodes) (n ∷ remove_node other nodes) rest
          (find-skip name n (remove_node other nodes) e ∙ rest)
  ]

  add_made-locked :
      (other : List ℕ) (nodes : List Cfg) (made : Made)
      → IsNew file other made
      → find_node other nodes ≡ none
      → find_node name nodes ≡ some cfg
      → find_node name (add_made nodes made) ≡ some cfg
  add_made-locked other nodes invalid_name new free h = h
  add_made-locked other nodes no_memory new free h = h
  add_made-locked other nodes (item c) new free h = elim (Bool-cases (same_name c.name name)) [
    | inl e ↦
        let same : other ≡ name = sym new.1 ∙ same_name-eq c.name name e in
        absurd (none-some (sym free ∙ ap (λ n. find_node n nodes) same ∙ h))
    | inr e ↦ find-skip name c nodes e ∙ h
  ]

  make_absent-locked :
      (other : List ℕ) (nodes : List Cfg) (o : Option Cfg) (t : Trace)
      → find_node other nodes ≡ o
      → find_node name nodes ≡ some cfg
      → find_node name (make_absent kernel file other nodes o t).0 ≡ some cfg
  unfolding make_absent
  make_absent-locked other nodes (some c) t e h = h
  make_absent-locked other nodes none t e h =
      add_made-locked other nodes (make_item_of kernel file other t).0
        (make_item_of-IsNew kernel file other t) e h

  remove_present-locked :
      (other : List ℕ) (nodes : List Cfg) (o : Option Cfg) (t : Trace)
      → other ≢ name
      → find_node name nodes ≡ some cfg
      → find_node name (remove_present other nodes o t).0 ≡ some cfg
  unfolding remove_present
  remove_present-locked other nodes none t ne h = h
  remove_present-locked other nodes (some c) t ne h = remove_node-locked other nodes ne h

  apply_op-locked :
      (op : Op) (nodes : List Cfg) (t : Trace)
      → Spares name op
      → find_node name nodes ≡ some cfg
      → find_node name (apply_op kernel file op nodes t).0 ≡ some cfg
  unfolding apply_op
  apply_op-locked (mkdir other) nodes t s h =
      make_absent-locked other nodes (find_node other nodes) t refl h
  apply_op-locked (rmdir other) nodes t s h =
      remove_present-locked other nodes (find_node other nodes) t s h
  apply_op-locked (write other attribute page) nodes t s h =
      write_node-locked other attribute page nodes t h

-- In every session with the nodes of CR0, CR4 or the MSRs in which a locked node is not removed, the node
-- is still there at the end with the same policy and locked, whatever is written to it and whatever
-- else is made, written and removed.
pub run_ops-locked :
    (kernel : Kernel) (file : ConfigFile) (name : List ℕ) (cfg : Cfg) (ops : List Op)
    (nodes : List Cfg) (t : Trace)
    → cfg.locked ≡ true
    → All (Spares name) ops
    → find_node name nodes ≡ some cfg
    → find_node name (run_ops kernel file ops nodes t).0 ≡ some cfg
unfolding run_ops
run_ops-locked kernel file name cfg [] nodes t l s h = h
run_ops-locked kernel file name cfg (op ∷ ops) nodes t l s h =
    let next = apply_op kernel file op nodes t in
    run_ops-locked kernel file name cfg ops next.0 next.1 l s.1
      (apply_op-locked kernel file name cfg l op nodes t s.0 h)
