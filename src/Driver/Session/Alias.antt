-- ===== src/Driver/Session/Alias.antt =====
-- driver/cr0.c, driver/cr4.c and driver/msr.c: nodes whose names differ in their case only. The tables
-- are searched by `strcasecmp`, but configfs tells the names apart.
use ikgt_usage.Base.{
  ℕ, ◌≡◌, ◌≢◌, sym, ◌∙◌, refl, not, ◌==◌, some, true, false, List, [], ◌∷◌, arith,
}
use ikgt_usage.Base.Text.{eq_ignoring_case}
use ikgt_usage.Driver.Tables.{NameValueMap}
use ikgt_usage.Driver.Kernel.{Kernel, Trace, kfree, kzalloc, hypercall}
use ikgt_usage.Driver.Nodes.Enable.{RowOf}
use ikgt_usage.Driver.Config.{
  Cfg, Node, valid_attr, policy_message, policy_set, store_enable, eperm,
}

-- Comparing with either of two such names is the same.
eq_ignoring_case_right :
    (s name name' : List ℕ)
    → eq_ignoring_case name name' ≡ true
    → eq_ignoring_case s name ≡ eq_ignoring_case s name'
unfolding eq_ignoring_case
eq_ignoring_case_right [] [] [] h = refl
eq_ignoring_case_right [] (a ∷ n) (b ∷ n') h = refl
eq_ignoring_case_right (c ∷ s) [] [] h = refl
eq_ignoring_case_right (c ∷ s) (a ∷ n) (b ∷ n') h = ground (arith, h, eq_ignoring_case_right s n n')
eq_ignoring_case_right s [] (b ∷ n') h = cc
eq_ignoring_case_right s (a ∷ n) [] h = cc

valid_attr-alias :
    (rows : List NameValueMap) (name name' : List ℕ)
    → eq_ignoring_case name name' ≡ true
    → valid_attr rows name ≡ valid_attr rows name'
unfolding valid_attr
valid_attr-alias [] name name' h = refl
valid_attr-alias (r ∷ rows) name name' h =
    rw (eq_ignoring_case_right r.name name name' h, valid_attr-alias rows name name' h) refl

-- The bypass of a lock. Let two nodes have names that differ in their case only, and let the first be locked
-- and the other not. A number that is written to the `enable` of the first is refused with -EPERM, without
-- a call. Written to that of the other, if the driver has memory for the message, it is sent to the handler
-- as an update of the first node's resource, with the other node's action and sticky value.
pub store_enable-alias :
    (kernel : Kernel) (node : Node) (first other : Cfg) (page : List ℕ) (t : Trace) (value : ℕ)
    (r : RowOf node.rows first.name)
    → eq_ignoring_case first.name other.name ≡ true
    → first.locked ≡ true
    → other.locked ≡ false
    → kernel.kstrtoul page 0 ≡ some value
    → kernel.kzalloc_address t ≢ 0
    → (store_enable kernel node first page t ≡ ((eperm, first), t))
      × ((store_enable kernel node other page t).1
          ≡ kfree
            ∷ hypercall (policy_message node r.row other (not (value == 0)))
            ∷ kzalloc (kernel.kzalloc_address t)
            ∷ t)
unfolding store_enable policy_set
store_enable-alias kernel node first other page t value r same locked free number memory =
    let found : valid_attr node.rows other.name ≡ some r.index =
      sym (valid_attr-alias node.rows first.name other.name same) ∙ r.found in
    (ground (arith, locked, number), ground (arith, free, number, memory, found, r.there))
