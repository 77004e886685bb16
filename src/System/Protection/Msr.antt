-- ===== src/System/Protection/Msr.antt =====
-- A policy of the handler on a model-specific register, from the table of handler/policy.c through
-- handler/handler.c and handler/cpu.c to handler/cpu_msr.c.
use ikgt_usage.Base.{
  ℕ, ◌≡◌, ◌≢◌, refl, sym, ap, subst, ◌∙◌, true, List, some, arith, if◌then◌else◌, inc64,
}
use ikgt_usage.PolicyCommon.Resource.{resource_id_unknown}
use ikgt_usage.Handler.Entry.{
  PolicyEntry, PolicyTable, policy_entry_has_sticky, policy_entry_w_has_skip,
}
use ikgt_usage.Handler.Api.{Env, EventInfo, CpuReg, cpu, msr, allow}
use ikgt_usage.Handler.MaskTables.{ia32_msr_invalid}
use ikgt_usage.Handler.Machine.{Machine}
use ikgt_usage.Handler.Table.Lookup.{lookup, IsValid}
use ikgt_usage.Base.Join.{join}
use ikgt_usage.Handler.Msr.Wrmsr.{IsWrmsr, msr_operands-IsWrmsr}
use ikgt_usage.Handler.Msr.{
  res_id_to_msr, msr_operands, scan_msr_slots, decide_msr, handle_msr_event,
}
use ikgt_usage.Handler.Msr.Decision.{msr_response, response-scan_msr}
use ikgt_usage.Handler.Events.{
  handle_cpu_event, dispatch_event, handler_report_event, report_events,
}
use ikgt_usage.Handler.Frame.{rule, rules, rules_of}
use ikgt_usage.Handler.Invariant.{IsRunning, lookup-rule}
use ikgt_usage.Handler.Invariant.Messages.{table_of}
use ikgt_usage.Handler.Invariant.Immutable.{report_events-IsFrozen}
use ikgt_usage.Handler.Invariant.Sequences.{report_events-IsRunning}
use ikgt_usage.System.Protection.{entry_of_rule}

pub msr_response-rule :
    (e : PolicyEntry) (value : ℕ) → msr_response (rule e) value ≡ msr_response e value
unfolding msr_response policy_entry_has_sticky policy_entry_w_has_skip
msr_response-rule e value = refl

-- One event on a machine whose table has the entry.
event-response :
    (env : Env) (info : EventInfo) (id value : ℕ) (m : Machine) (t : PolicyTable) (e : PolicyEntry)
    → m.table ≡ some t
    → IsValid t
    → lookup id t.policy_entry ≡ some e
    → id ≢ resource_id_unknown
    → res_id_to_msr id ≢ ia32_msr_invalid
    → (msr_operands env m.trace).0 ≡ some (res_id_to_msr id, value)
    → (handle_msr_event env info m).response ≡ msr_response e value
unfolding handle_msr_event decide_msr
event-response env info id value m t e loaded v found named known operands =
    let m1 : Machine = record m {
      response = allow;
      msr_counters = record (m.msr_counters) { count = inc64 m.msr_counters.count };
      trace = (msr_operands env m.trace).1;
    } in
    ap (λ o. (decide_msr env info o m1).response) operands
    ∙ ap (λ o. (scan_msr_slots env info value (res_id_to_msr id) o m1).response) loaded
    ∙ response-scan_msr env info value id t e m1 v found named known

-- The same with the entry as it was when the policies became immutable.
rule-response :
    (env : Env) (info : EventInfo) (id value : ℕ) (start m : Machine) (t : PolicyTable)
    (e : PolicyEntry)
    → IsRunning m
    → rules m ≡ rules start
    → start.table ≡ some t
    → lookup id t.policy_entry ≡ some e
    → id ≢ resource_id_unknown
    → res_id_to_msr id ≢ ia32_msr_invalid
    → (msr_operands env m.trace).0 ≡ some (res_id_to_msr id, value)
    → (handle_msr_event env info m).response ≡ msr_response e value
unfolding rules
rule-response env info id value start m t e run same loaded found named known operands =
    let (t', loaded', v) = table_of m run in
    let equal : rules_of t' ≡ rules_of t = ground (arith, same, loaded, loaded') in
    let ruled : lookup id (rules_of t).policy_entry ≡ some (rule e) =
      unfold rules_of in ground (arith, lookup-rule id t.policy_entry, found) in
    let (e', found', q) =
      entry_of_rule id t' (rule e)
        (subst (λ s. lookup id s.policy_entry ≡ some (rule e)) (sym equal) ruled) in
    event-response env info id value m t' e' loaded' v found' named known operands
    ∙ (sym (msr_response-rule e' value)
        ∙ (ap (λ x. msr_response x value) q ∙ msr_response-rule e value))

-- The machine as it reaches the code of the registers: the response is set and the event counted.
abbrev pub entering_msr : Machine → Machine
entering_msr m = record m {
  response = allow;
  cpu_counters = record (m.cpu_counters) { msr_count = inc64 m.cpu_counters.msr_count };
}

pub reported_msr :
    (env : Env) (info : EventInfo) (event_reg operand_reg : CpuReg) (m : Machine)
    → m.init_status ≡ true
    → info.event_data ≡ cpu msr event_reg operand_reg
    → handler_report_event env info m ≡ handle_msr_event env info (entering_msr m)
unfolding handler_report_event dispatch_event handle_cpu_event
reported_msr env info event_reg operand_reg m i d =
    ap
      (λ b.
        if b
        then dispatch_event env info info.event_data (record m { response = allow })
        else record m { response = allow })
      i
    ∙ ap (λ x. dispatch_event env info x (record m { response = allow })) d

-- The promise of the program for a model-specific register. If the handler is running, its policies
-- have been made immutable and the table has an entry for a resource that the handler's table knows as a
-- register, then after every sequence of events, whatever messages the guest sends, a WRMSR whose RCX is
-- the number of that register, with no bit set above it, is answered by that entry, if there is memory
-- for the reads of the guest's registers and the hypervisor answers them: a sticky entry allows the write
-- if the value that the lower halves of RDX and RAX make is its own and redirects any other, a skip one
-- redirects, any other allows.
pub report_events-msr_response :
    (env : Env) (info : EventInfo) (events : List EventInfo) (event_reg operand_reg : CpuReg)
    (id rax rdx : ℕ) (start : Machine) (t : PolicyTable) (e : PolicyEntry)
    → IsRunning start
    → start.immutable ≡ true
    → start.table ≡ some t
    → lookup id t.policy_entry ≡ some e
    → id ≢ resource_id_unknown
    → res_id_to_msr id ≢ ia32_msr_invalid
    → info.event_data ≡ cpu msr event_reg operand_reg
    → IsWrmsr env (report_events env events start).trace (res_id_to_msr id) rax rdx
    → (handler_report_event env info (report_events env events start)).response
      ≡ msr_response e (join rdx rax)
unfolding rules
report_events-msr_response env info events event_reg operand_reg id rax rdx start t e run fixed
      loaded found named known d w =
    let m : Machine = report_events env events start in
    let still : IsRunning m = report_events-IsRunning env events start run in
    let run' : IsRunning (entering_msr m) = record {
      initialised = still.initialised;
      loaded = still.loaded;
      no_fault = still.no_fault;
    } in
    ap (λ x. x.response) (reported_msr env info event_reg operand_reg m still.initialised d)
    ∙ rule-response env info id (join rdx rax) start (entering_msr m) t e run'
        (report_events-IsFrozen env events start fixed).same_rules loaded found named known
        (msr_operands-IsWrmsr env m.trace id rax rdx known w)
