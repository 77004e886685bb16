-- ===== src/System/Protection.antt =====
-- A policy of the handler on a control register, from the table of handler/policy.c through
-- handler/handler.c and handler/cpu.c to handler/cpu_cr0.c and handler/cpu_cr4.c.
pub mod Msr
use ikgt_usage.Base.{
  ℕ, ◌≡◌, ◌≢◌, refl, sym, ap, subst, ◌∙◌, true, List, some, arith, if◌then◌else◌, bit_xor, inc64,
  Option-cases, inl, inr,
}
use ikgt_usage.Base.Bits.{bit}
use ikgt_usage.Handler.Entry.{
  PolicyEntry, PolicyTable, is_cr0_entry, is_cr4_entry, policy_entry_has_sticky,
  policy_entry_w_has_skip,
}
use ikgt_usage.Handler.Api.{Env, EventInfo, CpuReg, cpu, reg, allow, VmcsReg}
use ikgt_usage.Handler.Machine.{Machine, PolicyCounters, resume}
use ikgt_usage.Handler.Table.Lookup.{lookup, IsValid}
use ikgt_usage.Handler.Crx.{
  Crx, crx_operands, decide_crx, handle_crx_event, cr0, cr4, handle_cr0_event, handle_cr4_event,
}
use ikgt_usage.Handler.Crx.Bits.{IsCrx, decided}
use ikgt_usage.Handler.Crx.Value.{policy_value, bit-policy_value}
use ikgt_usage.Handler.Crx.Outcome.{Outcome, decide_crx_lem}
use ikgt_usage.Handler.Events.{
  handle_reg_event, handle_cpu_event, dispatch_event, handler_report_event, report_events,
}
use ikgt_usage.Handler.Frame.{rule, rules, rules_of}
use ikgt_usage.Handler.Invariant.{IsRunning, lookup-rule}
use ikgt_usage.Handler.Invariant.Messages.{table_of}
use ikgt_usage.Handler.Invariant.Immutable.{report_events-IsFrozen}
use ikgt_usage.Handler.Invariant.Sequences.{report_events-IsRunning}

-- The write to the register is answered with a value whose bit `k` is what the policy `e` says: `Outcome`
-- says whether the value takes the place of the guest's.
abbrev pub Protects : Env → VmcsReg → ℕ → ℕ → ℕ → PolicyEntry → Machine → Type 0
Protects env id cur new k e m =
    (value : ℕ) × Outcome env id value cur m × (bit value k ≡ decided e (bit cur k) (bit new k))

decided-rule : (e : PolicyEntry) (cur new : ℕ) → decided (rule e) cur new ≡ decided e cur new
unfolding decided policy_entry_has_sticky policy_entry_w_has_skip
decided-rule e cur new = refl

-- The entry that a rule was made from.
pub entry_of_rule :
    (id : ℕ) (t : PolicyTable) (e : PolicyEntry)
    → lookup id (rules_of t).policy_entry ≡ some e
    → (e' : PolicyEntry) × (lookup id t.policy_entry ≡ some e') × (rule e' ≡ e)
unfolding rules_of
entry_of_rule id t e h = elim (Option-cases (lookup id t.policy_entry)) [
  | inl n ↦ absurd (ground (arith, lookup-rule id t.policy_entry))
  | inr p ↦ let (e', s) = p in (e', s, ground (arith, lookup-rule id t.policy_entry))
]

-- The register's code is reached by events of `r`, its counters are not in the table, and an entry
-- is one of it by its identifier.
pub record IsHandled (crx : Crx) (r : CpuReg) : Type 0 where
  pub handles :
      (env : Env) (info : EventInfo) (operand : CpuReg) (m : Machine)
      → handle_reg_event env info r operand m ≡ handle_crx_event crx env info operand m
  pub apart : (m : Machine) (c : PolicyCounters) → (crx.set_counters m c).table ≡ m.table
  pub named :
      (e e' : PolicyEntry)
      → e.resource_id ≡ e'.resource_id
      → crx.is_crx_entry e ≡ crx.is_crx_entry e'

pub cr0-IsHandled : IsHandled cr0 CpuReg.cr0
unfolding handle_reg_event handle_cr0_event is_cr0_entry
cr0-IsHandled = record {
  handles = λ env info operand m. refl;
  apart = λ m c. refl;
  named = λ e e' q. rw q refl;
}

pub cr4-IsHandled : IsHandled cr4 CpuReg.cr4
unfolding handle_reg_event handle_cr4_event is_cr4_entry
cr4-IsHandled = record {
  handles = λ env info operand m. refl;
  apart = λ m c. refl;
  named = λ e e' q. rw q refl;
}

pub operands-table :
    (crx : Crx) (r : CpuReg) (h : IsHandled crx r) (env : Env) (operand : CpuReg) (m : Machine)
    → (crx_operands crx env operand m).1.table ≡ m.table
unfolding crx_operands
operands-table crx r h env operand m =
    let start : Machine = record m { response = allow } in
    h.apart start (record (crx.counters start) { count = inc64 (crx.counters start).count })

module _ (crx : Crx) (c : IsCrx crx) (r : CpuReg) (h : IsHandled crx r) (env : Env)
    (info : EventInfo) (operand : CpuReg) (id : VmcsReg) (cur new : ℕ) where
  -- One event on a machine with the entry.
  event-Protects :
      (m : Machine) (t : PolicyTable) (e : PolicyEntry)
      → m.table ≡ some t
      → IsValid t
      → lookup e.resource_id t.policy_entry ≡ some e
      → crx.is_crx_entry e ≡ true
      → (crx_operands crx env operand m).0 ≡ some (id, (cur, new))
      → bit_xor cur new ≢ 0
      → Protects env id cur new
          (c.position e.resource_id)
          e
          (handle_crx_event crx env info operand m)
  unfolding handle_crx_event
  event-Protects m t e loaded v found in_range operands ne =
      let m1 : Machine = (crx_operands crx env operand m).1 in
      (
        policy_value crx t (crx.counters m1) cur new,
        subst
            (λ o.
              Outcome env id (policy_value crx t (crx.counters m1) cur new) cur
                (resume (decide_crx crx env info) o m1).1)
            (sym operands)
            (decide_crx_lem crx env info id cur new t m1 ne
              (operands-table crx r h env operand m ∙ loaded)),
        bit-policy_value crx c t e (crx.counters m1) cur new v found in_range,
      )

  -- The same with the entry as it was when the policies became immutable.
  rule-Protects :
      (start m : Machine) (t : PolicyTable) (e : PolicyEntry)
      → IsRunning m
      → rules m ≡ rules start
      → start.table ≡ some t
      → lookup e.resource_id t.policy_entry ≡ some e
      → crx.is_crx_entry e ≡ true
      → (crx_operands crx env operand m).0 ≡ some (id, (cur, new))
      → bit_xor cur new ≢ 0
      → Protects env id cur new
          (c.position e.resource_id)
          e
          (handle_crx_event crx env info operand m)
  unfolding rules
  rule-Protects start m t e run same loaded found in_range operands ne =
      let (t', loaded', v) = table_of m run in
      let equal : rules_of t' ≡ rules_of t = ground (arith, same, loaded, loaded') in
      let ruled : lookup e.resource_id (rules_of t).policy_entry ≡ some (rule e) =
        unfold rules_of in ground (arith, lookup-rule e.resource_id t.policy_entry, found) in
      let (e', found', q) =
        entry_of_rule e.resource_id t' (rule e)
          (subst (λ s. lookup e.resource_id s.policy_entry ≡ some (rule e)) (sym equal) ruled) in
      let named : e'.resource_id ≡ e.resource_id = ap (λ (x : PolicyEntry). x.resource_id) q in
      let decides : decided e' (bit cur (c.position e.resource_id))
            (bit new (c.position e.resource_id))
          ≡ decided e (bit cur (c.position e.resource_id)) (bit new (c.position e.resource_id)) =
        sym (decided-rule e' _ _)
        ∙ ap
            (λ x.
              decided x (bit cur (c.position e.resource_id)) (bit new (c.position e.resource_id)))
            q
        ∙ decided-rule e _ _ in
      let (value, o, b) =
        event-Protects m t' e' loaded' v
          (subst (λ i. lookup i t'.policy_entry ≡ some e') (sym named) found')
          (h.named e' e named ∙ in_range) operands ne in
      (
        value,
        o,
        subst
              (λ i.
                bit value (c.position i)
                ≡ decided e' (bit cur (c.position i)) (bit new (c.position i)))
              named b
            ∙ decides,
      )

-- The machine as it reaches the code of a register: the response is set and the event counted.
abbrev pub entering : Machine → Machine
entering m = record m {
  response = allow;
  cpu_counters = record (m.cpu_counters) { reg_count = inc64 m.cpu_counters.reg_count };
}

pub reported :
    (crx : Crx) (r : CpuReg) (h : IsHandled crx r) (env : Env) (info : EventInfo) (operand : CpuReg)
    (m : Machine)
    → m.init_status ≡ true
    → info.event_data ≡ cpu reg r operand
    → handler_report_event env info m ≡ handle_crx_event crx env info operand (entering m)
unfolding handler_report_event dispatch_event handle_cpu_event
reported crx r h env info operand m i d =
    ap
      (λ b.
        if b
        then dispatch_event env info info.event_data (record m { response = allow })
        else record m { response = allow })
      i
    ∙ (ap (λ x. dispatch_event env info x (record m { response = allow })) d
        ∙ h.handles env info operand (entering m))

-- The promise of the program for a control register. If the handler is running, its policies have been
-- made immutable and the table has an entry for a bit of the register, then after every sequence of
-- events, whatever messages the guest sends, a write to the register that changes its value and whose
-- operand can be read is given a value by that entry: its bit is the lowest bit of the sticky value if the
-- entry is sticky, the register's own bit if it skips, and the guest's only otherwise, or if the guest
-- leaves the bit alone. If this is the register's own value, the write is redirected. Otherwise it is
-- allowed after a last call that puts the value in place of the guest's; if there is no memory for this
-- call, or the hypervisor refuses it, the write is allowed all the same, and the guest's own value goes
-- through.
pub report_events-Protects :
    (crx : Crx) (c : IsCrx crx) (r : CpuReg) (h : IsHandled crx r) (env : Env) (info : EventInfo)
    (events : List EventInfo) (operand : CpuReg) (id : VmcsReg) (cur new : ℕ) (start : Machine)
    (t : PolicyTable) (e : PolicyEntry)
    → IsRunning start
    → start.immutable ≡ true
    → start.table ≡ some t
    → lookup e.resource_id t.policy_entry ≡ some e
    → crx.is_crx_entry e ≡ true
    → info.event_data ≡ cpu reg r operand
    → (crx_operands crx env operand (entering (report_events env events start))).0
      ≡ some (id, (cur, new))
    → bit_xor cur new ≢ 0
    → Protects env id cur new
        (c.position e.resource_id)
        e
        (handler_report_event env info (report_events env events start))
unfolding rules
report_events-Protects crx c r h env info events operand id cur new start t e run fixed loaded found
      in_range d operands ne =
    let m : Machine = report_events env events start in
    let still : IsRunning m = report_events-IsRunning env events start run in
    let run' : IsRunning (entering m) = record {
      initialised = still.initialised;
      loaded = still.loaded;
      no_fault = still.no_fault;
    } in
    subst (Protects env id cur new (c.position e.resource_id) e)
      (sym (reported crx r h env info operand m still.initialised d))
      (rule-Protects crx c r h env info operand id cur new start (entering m) t e run'
        (report_events-IsFrozen env events start fixed).same_rules loaded found in_range operands
        ne)
