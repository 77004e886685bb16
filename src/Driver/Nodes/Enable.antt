-- ===== src/Driver/Nodes/Enable.antt =====
-- driver/cr0.c, driver/cr4.c and driver/msr.c: the ways in which a write to `enable` ends.
use ikgt_usage.Base.{
  Bool, ℕ, suc, ◌≡◌, ◌≢◌, refl, true, false, not, List, [], ◌∷◌, none, some, inl, inr, arith, ◌==◌,
  get_elem?, Bool-cases, Option-cases, ◌⊎◌,
}
use native.Mathlib.Decide.{ℕ_discrete}
use ikgt_usage.Base.Text.{eq_ignoring_case}
use ikgt_usage.PolicyCommon.{PolicyMessage}
use ikgt_usage.Base.Bits.{bit, bit-lt-two, mask_test_right}
use ikgt_usage.Driver.Tables.{NameValueMap}
use ikgt_usage.Driver.Kernel.{Trace, Kernel, kzalloc, kfree, hypercall}
use ikgt_usage.Driver.Config.{
  Cfg, Node, valid_attr, policy_message, policy_set, all_bytes, eperm, einval, set_enabled,
  store_enable,
}

-- A row of the table with the node's name.
pub record RowOf (rows : List NameValueMap) (name : List ℕ) : Type 0 where
  pub index : ℕ
  pub row : NameValueMap
  pub found : valid_attr rows name ≡ some index
  pub there : get_elem? rows index ≡ some row
  pub named : eq_ignoring_case row.name name ≡ true

pub valid_attr-RowOf :
    (rows : List NameValueMap) (name : List ℕ) → (valid_attr rows name ≡ none) ⊎ RowOf rows name
unfolding valid_attr
valid_attr-RowOf [] name = inl refl
valid_attr-RowOf (r ∷ rows) name = elim (Bool-cases (eq_ignoring_case r.name name)) [
  | inl e ↦ inr (record { index = 0; row = r; found = rw e refl; there = refl; named = e })
  | inr e ↦ elim (valid_attr-RowOf rows name) [
    | inl none_left ↦ inl (rw (e, none_left) refl)
    | inr o ↦ inr (record {
      index = suc o.index;
      row = o.row;
      found = ground (arith, e, o.found);
      there = o.there;
      named = o.named;
    })
  ]
]

module _ (kernel : Kernel) (node : Node) (cfg : Cfg) (page : List ℕ) (t : Trace) where
  abbrev pub block : ℕ
  block = kernel.kzalloc_address t

  -- The calls of one message that is sent.
  abbrev pub sent : PolicyMessage → Trace
  sent message = kfree ∷ hypercall message ∷ kzalloc block ∷ t

  -- The handler takes the message.
  abbrev pub takes : PolicyMessage → Bool
  takes message = kernel.hypercall_succeeds (kzalloc block ∷ t) message

  -- The ways in which `store_enable` ends, with its result, the node and all calls.
  pub data EnableOutcome : Type 0 where
    no_number :
        kernel.kstrtoul page 0 ≡ none
        → store_enable kernel node cfg page t ≡ ((einval, cfg), t)
        → EnableOutcome
    locked :
        (value : ℕ)
        → kernel.kstrtoul page 0 ≡ some value
        → cfg.locked ≡ true
        → store_enable kernel node cfg page t ≡ ((eperm, cfg), t)
        → EnableOutcome
    no_row :
        (value : ℕ)
        → kernel.kstrtoul page 0 ≡ some value
        → cfg.locked ≡ false
        → valid_attr node.rows cfg.name ≡ none
        → store_enable kernel node cfg page t ≡ ((all_bytes, cfg), t)
        → EnableOutcome
    no_memory :
        (value : ℕ)
        → RowOf node.rows cfg.name
        → kernel.kstrtoul page 0 ≡ some value
        → cfg.locked ≡ false
        → block ≡ 0
        → store_enable kernel node cfg page t ≡ ((all_bytes, cfg), kzalloc block ∷ t)
        → EnableOutcome
    declined :
        (value : ℕ) (r : RowOf node.rows cfg.name)
        → kernel.kstrtoul page 0 ≡ some value
        → cfg.locked ≡ false
        → block ≢ 0
        → takes (policy_message node r.row cfg (not (value == 0))) ≡ false
        → store_enable kernel node cfg page t
          ≡ ((all_bytes, cfg), sent (policy_message node r.row cfg (not (value == 0))))
        → EnableOutcome
    accepted :
        (value : ℕ) (r : RowOf node.rows cfg.name)
        → kernel.kstrtoul page 0 ≡ some value
        → cfg.locked ≡ false
        → block ≢ 0
        → takes (policy_message node r.row cfg (not (value == 0))) ≡ true
        → store_enable kernel node cfg page t ≡ (
          (all_bytes, record cfg { enable = not (value == 0); locked = bit cfg.write 7 == 1 }),
          sent (policy_message node r.row cfg (not (value == 0))),
        )
        → EnableOutcome

-- What a node is after its message is accepted: locked by the seventh digit of its action.
set_enabled-accepted :
    (cfg : Cfg) (value : Bool)
    → cfg.locked ≡ false
    → set_enabled cfg value true ≡ record cfg { enable = value; locked = bit cfg.write 7 == 1 }
unfolding set_enabled
set_enabled-accepted cfg value l =
    ground (arith, l, mask_test_right 7 cfg.write, bit-lt-two cfg.write 7)

-- A write to the `enable` of a node ends in one of six ways. A text that is no number and a locked
-- node are refused without a call; a name that is in no row of the table and a failed allocation
-- leave the node as it is; and otherwise exactly one message is sent, that of the row with the node's
-- name, and its block is freed. If the handler declines it the node stays as it is, though the writer is
-- told of success. If the handler accepts it, `enable` says whether the number is not 0, and the node is
-- locked exactly when digit 7 of its action, the sticky one, is set, also when the policy is disabled.
pub store_enable-EnableOutcome :
    (kernel : Kernel) (node : Node) (cfg : Cfg) (page : List ℕ) (t : Trace)
    → EnableOutcome kernel node cfg page t
unfolding store_enable policy_set
store_enable-EnableOutcome kernel node cfg page t = elim (Option-cases (kernel.kstrtoul page 0)) [
  | inl e ↦ EnableOutcome.no_number e (ground (arith, e))
  | inr p ↦
      let (value, e) = p in
      elim (Bool-cases cfg.locked) [
        | inl l ↦ EnableOutcome.locked value e l (ground (arith, e, l))
        | inr l ↦ elim (valid_attr-RowOf node.rows cfg.name) [
          | inl m ↦ EnableOutcome.no_row value e l m (ground (arith, e, l, m))
          | inr r ↦ elim (ℕ_discrete (kernel.kzalloc_address t) 0) [
            | yes z ↦
                EnableOutcome.no_memory value r e l z (ground (arith, e, l, r.found, r.there, z))
            | no nz ↦
                let message : PolicyMessage = policy_message node r.row cfg (not (value == 0)) in
                let next = set_enabled-accepted cfg (not (value == 0)) l in
                elim (Bool-cases (takes kernel node cfg page t message)) [
                  | inl h ↦
                      EnableOutcome.accepted value r e l nz h
                        (ground (arith, e, l, r.found, r.there, nz, h, next))
                  | inr h ↦
                      EnableOutcome.declined value r e l nz h
                        (ground (arith, e, l, r.found, r.there, nz, h))
                ]
          ]
        ]
      ]
]
