-- ===== src/System/Answers.antt =====
-- A guest's write to a control register, answered by the policies that the messages have left: the
-- whole of handler/ from handler/handler.c to handler/cpu_cr0.c and handler/cpu_cr4.c.
pub mod Msr
use ikgt_usage.Base.{
  ℕ, ◌≡◌, ◌≢◌, refl, sym, ap, subst, ◌∙◌, true, List, [], ◌∷◌, Option, none, some, arith, bit_xor,
  inl, inr, Option-cases, if◌then◌else◌, ◌==◌,
}
use ikgt_usage.Base.Bits.{bit}
use ikgt_usage.PolicyCommon.{LogBuffer}
use ikgt_usage.PolicyCommon.Resource.{resource_id_unknown}
use ikgt_usage.Handler.Entry.{
  PolicyEntry, PolicyTable, policy_entry_has_sticky, policy_entry_w_has_skip,
}
use ikgt_usage.Handler.Api.{Env, EventInfo, CpuReg, cpu, reg, VmcsReg, Trace}
use ikgt_usage.Handler.Machine.{Machine, PolicyCounters, boot, resume}
use ikgt_usage.Handler.Table.{free_entry}
use ikgt_usage.Handler.Table.Lookup.{lookup, IsValid}
use ikgt_usage.Handler.Crx.{Crx, crx_operands, decide_crx, handle_crx_event}
use ikgt_usage.Handler.Crx.Bits.{IsCrx, decided, absent-Elsewhere}
use ikgt_usage.Handler.Crx.Value.{policy_value, bit-policy_value, bit-policy_value_free}
use ikgt_usage.Handler.Crx.Outcome.{Outcome, decide_crx_lem}
use ikgt_usage.Handler.Events.{handler_initialize, handler_report_event, report_events}
use ikgt_usage.Handler.Frame.{rule, rules, rules_of}
use ikgt_usage.Handler.Invariant.{IsRunning, lookup-rule}
use ikgt_usage.Handler.Invariant.Messages.{table_of}
use ikgt_usage.Handler.Invariant.Sequences.{report_events-init}
use ikgt_usage.Handler.Policies.{policies, policies_in, messages_of, replay, NamesResources}
use ikgt_usage.Handler.Policies.Sequences.{no_policies, policies-report_events}
use ikgt_usage.System.Protection.{IsHandled, entering, operands-table, reported}

-- The bit that a policy, if there is one, makes of `cur` in the register and `new` of the guest.
unfoldable pub decided_by : Option PolicyEntry → ℕ → ℕ → ℕ
unfolding decided
decided_by none cur new = new
decided_by (some e) cur new = decided e cur new

-- The write to the register is answered with a value whose bit `k` is what the policy says: `Outcome` says
-- whether the value takes the place of the guest's.
abbrev pub Answers : Env → VmcsReg → ℕ → ℕ → ℕ → Option PolicyEntry → Machine → Type 0
Answers env id cur new k policy m =
    (value : ℕ) × Outcome env id value cur m
    × (bit value k ≡ decided_by policy (bit cur k) (bit new k))

-- An entry of a resource.
abbrev pub entry_named : ℕ → PolicyEntry
entry_named resource = record free_entry { resource_id = resource }

lookup-named :
    (id : ℕ) (es : List PolicyEntry) (e : PolicyEntry) → lookup id es ≡ some e → e.resource_id ≡ id
unfolding lookup
lookup-named id [] e h = cc
lookup-named id (x ∷ es) e h = ground (arith, lookup-named id es e)

-- The handler after its start and a sequence of events, and the policies that their messages have left.
abbrev pub after : Env → (ℕ → LogBuffer) → Trace → List EventInfo → Machine
after env memory t events = report_events env events (handler_initialize env (boot memory t))

abbrev pub left_by : Env → (ℕ → LogBuffer) → Trace → List EventInfo → ℕ → Option PolicyEntry
left_by env memory t events =
    (replay env (messages_of env events (handler_initialize env (boot memory t)))
      no_policies).policy

module _ (crx : Crx) (c : IsCrx crx) (r : CpuReg) (h : IsHandled crx r) (resource : ℕ)
    (of_crx : crx.is_crx_entry (entry_named resource) ≡ true) where
  decided_by-table :
      (t : PolicyTable) (counters : PolicyCounters) (cur new : ℕ)
      → IsValid t
      → bit (policy_value crx t counters cur new) (c.position resource)
        ≡ decided_by
            (policies_in (some (rules_of t)) resource)
            (bit cur (c.position resource))
            (bit new (c.position resource))
  unfolding decided_by rules_of decided policy_entry_has_sticky policy_entry_w_has_skip
  decided_by-table t counters cur new v =
      let known : resource ≢ resource_id_unknown = c.known (entry_named resource) of_crx in
      elim (Option-cases (lookup resource t.policy_entry)) [
        | inl absent ↦
            let nothing : policies_in (some (rules_of t)) resource ≡ none =
              ground (arith, known, absent, lookup-rule resource t.policy_entry) in
            rw nothing (
              bit-policy_value_free crx c t (c.position resource) counters cur new
                (absent-Elsewhere crx c (entry_named resource) t.policy_entry of_crx absent))
        | inr (e, found) ↦
            let same : e.resource_id ≡ resource = lookup-named resource t.policy_entry e found in
            let there : policies_in (some (rules_of t)) resource ≡ some (rule e) =
              ground (arith, known, found, lookup-rule resource t.policy_entry) in
            rw there (
              subst
                (λ i.
                  bit (policy_value crx t counters cur new) (c.position i)
                  ≡ decided e (bit cur (c.position i)) (bit new (c.position i)))
                same
                (bit-policy_value crx c t e counters cur new v
                  (ap (λ i. lookup i t.policy_entry) same ∙ found)
                  (h.named e (entry_named resource) same ∙ of_crx)))
      ]

  event-Answers :
      (env : Env) (info : EventInfo) (operand : CpuReg) (id : VmcsReg) (cur new : ℕ) (m : Machine)
      → IsRunning m
      → (crx_operands crx env operand m).0 ≡ some (id, (cur, new))
      → bit_xor cur new ≢ 0
      → Answers env id cur new
          (c.position resource)
          ((policies m).policy resource)
          (handle_crx_event crx env info operand m)
  unfolding handle_crx_event rules
  event-Answers env info operand id cur new m run operands ne =
      let (t, loaded, v) = table_of m run in
      let m1 : Machine = (crx_operands crx env operand m).1 in
      let value : ℕ = policy_value crx t (crx.counters m1) cur new in
      (
        value,
        subst (λ o. Outcome env id value cur (resume (decide_crx crx env info) o m1).1)
            (sym operands)
            (decide_crx_lem crx env info id cur new t m1 ne
              (operands-table crx r h env operand m ∙ loaded)),
        subst
            (λ (o : Option PolicyTable).
              bit value (c.position resource)
              ≡ decided_by
                  (policies_in (elim o [ none ↦ none | some t ↦ some (rules_of t) ]) resource)
                  (bit cur (c.position resource)) (bit new (c.position resource)))
            (sym loaded) (decided_by-table t (crx.counters m1) cur new v),
      )

  -- A write on a running handler, by the policies that it has.
  pub handler_report_event-Answers :
      (env : Env) (info : EventInfo) (operand : CpuReg) (id : VmcsReg) (cur new : ℕ) (m : Machine)
      → IsRunning m
      → info.event_data ≡ cpu reg r operand
      → (crx_operands crx env operand (entering m)).0 ≡ some (id, (cur, new))
      → bit_xor cur new ≢ 0
      → Answers env id cur new
          (c.position resource)
          ((policies m).policy resource)
          (handler_report_event env info m)
  unfolding rules
  handler_report_event-Answers env info operand id cur new m still d operands ne =
      let run : IsRunning (entering m) = record {
        initialised = still.initialised;
        loaded = still.loaded;
        no_fault = still.no_fault;
      } in
      subst (Answers env id cur new (c.position resource) ((policies m).policy resource))
        (sym (reported crx r h env info operand m still.initialised d))
        (event-Answers env info operand id cur new (entering m) run operands ne)

  -- The promise of the program for a control register, at any time. If the handler gets its memory and the
  -- hypervisor delivers updates of resources only, then after every sequence of events, a write to the
  -- register that changes its value and whose operand can be read is given a value by the policies that the
  -- messages so far have left: for each resource of the register, its bit is the guest's if there is no
  -- policy, and what the policy says otherwise. If this is the register's own value, the write is
  -- redirected. Otherwise it is allowed after a last call that puts the value in place of the guest's; if
  -- there is no memory for this call, or the hypervisor refuses it, the write is allowed all the same, and
  -- the guest's own value goes through.
  pub report_events-Answers :
      (env : Env) (memory : ℕ → LogBuffer) (t : Trace) (events : List EventInfo) (info : EventInfo)
      (operand : CpuReg) (id : VmcsReg) (cur new : ℕ)
      → env.malloc_succeeds t ≡ true
      → NamesResources env
      → info.event_data ≡ cpu reg r operand
      → (crx_operands crx env operand (entering (after env memory t events))).0
        ≡ some (id, (cur, new))
      → bit_xor cur new ≢ 0
      → Answers env id cur new
          (c.position resource)
          (left_by env memory t events resource)
          (handler_report_event env info (after env memory t events))
  report_events-Answers env memory t events info operand id cur new got names d operands ne =
      let m : Machine = after env memory t events in
      subst
        (λ p.
          Answers env id cur new (c.position resource) (p.policy resource)
            (handler_report_event env info m))
        (policies-report_events env memory t events got names)
        (handler_report_event-Answers env info operand id cur new m
          (report_events-init env memory t events got) d operands ne)
