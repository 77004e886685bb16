-- ===== src/System/Answers/Msr.antt =====
-- A guest's write to a model-specific register, answered by the policies that the messages have left:
-- from handler/handler.c to handler/cpu_msr.c.
use ikgt_usage.Base.{
  ℕ, ◌≡◌, ◌≢◌, refl, sym, ap, ◌∙◌, true, List, Option, none, some, arith, inl, inr, Option-cases,
  inc64,
}
use ikgt_usage.PolicyCommon.{LogBuffer}
use ikgt_usage.PolicyCommon.Resource.{resource_id_unknown}
use ikgt_usage.Handler.Entry.{PolicyEntry, PolicyTable}
use ikgt_usage.Handler.Api.{Env, EventInfo, CpuReg, cpu, msr, Trace, Response, allow}
use ikgt_usage.Handler.MaskTables.{ia32_msr_invalid}
use ikgt_usage.Handler.Machine.{Machine}
use ikgt_usage.Handler.Table.Lookup.{lookup, IsValid}
use ikgt_usage.Base.Join.{join}
use ikgt_usage.Handler.Msr.Wrmsr.{IsWrmsr, msr_operands-IsWrmsr}
use ikgt_usage.Handler.Msr.{
  res_id_to_msr, msr_operands, scan_msr_slots, decide_msr, handle_msr_event,
}
use ikgt_usage.Handler.Msr.Decision.{msr_response, response-scan_msr, scan_msr_slots_absent}
use ikgt_usage.Handler.Events.{handler_report_event}
use ikgt_usage.Handler.Frame.{rule, rules, rules_of}
use ikgt_usage.Handler.Invariant.{IsRunning, lookup-rule}
use ikgt_usage.Handler.Invariant.Messages.{table_of}
use ikgt_usage.Handler.Invariant.Sequences.{report_events-init}
use ikgt_usage.Handler.Policies.{policies, policies_in, NamesResources}
use ikgt_usage.Handler.Policies.Sequences.{policies-report_events}
use ikgt_usage.System.Protection.Msr.{entering_msr, reported_msr, msr_response-rule}
use ikgt_usage.System.Answers.{after, left_by}

-- What a policy, if there is one, answers to the value.
unfoldable pub answer_by : Option PolicyEntry → ℕ → Response
unfolding msr_response
answer_by none value = allow
answer_by (some e) value = msr_response e value

module _ (env : Env) (info : EventInfo) (id value : ℕ) (named : id ≢ resource_id_unknown)
    (known : res_id_to_msr id ≢ ia32_msr_invalid) where
  answer_by-table :
      (t : PolicyTable) (m : Machine)
      → m.response ≡ allow
      → IsValid t
      → (scan_msr_slots env info value (res_id_to_msr id) (some t) m).response
        ≡ answer_by (policies_in (some (rules_of t)) id) value
  unfolding answer_by rules_of
  answer_by-table t m a v = elim (Option-cases (lookup id t.policy_entry)) [
    | inl absent ↦
        let nothing : policies_in (some (rules_of t)) id ≡ none =
          ground (arith, named, absent, lookup-rule id t.policy_entry) in
        rw nothing
          (ap (λ x. x.response) (scan_msr_slots_absent env info value id t m absent known) ∙ a)
    | inr (e, found) ↦
        let there : policies_in (some (rules_of t)) id ≡ some (rule e) =
          ground (arith, named, found, lookup-rule id t.policy_entry) in
        rw there (
          response-scan_msr env info value id t e m v found named known
          ∙ sym (msr_response-rule e value))
  ]

  event-answer_by :
      (m : Machine)
      → IsRunning m
      → (msr_operands env m.trace).0 ≡ some (res_id_to_msr id, value)
      → (handle_msr_event env info m).response ≡ answer_by ((policies m).policy id) value
  unfolding handle_msr_event decide_msr rules
  event-answer_by m run operands =
      let (t, loaded, v) = table_of m run in
      let m1 : Machine = record m {
        response = allow;
        msr_counters = record (m.msr_counters) { count = inc64 m.msr_counters.count };
        trace = (msr_operands env m.trace).1;
      } in
      ap (λ o. (decide_msr env info o m1).response) operands
      ∙ (ap (λ o. (scan_msr_slots env info value (res_id_to_msr id) o m1).response) loaded
          ∙ (answer_by-table t m1 refl v
              ∙ ap
                  (λ (o : Option PolicyTable).
                    answer_by (policies_in (elim o [ none ↦ none | some t ↦ some (rules_of t) ]) id)
                      value)
                  (sym loaded)))

  -- A write on a running handler, by the policies that it has.
  pub handler_report_event-answer_by :
      (event_reg operand_reg : CpuReg) (m : Machine)
      → IsRunning m
      → info.event_data ≡ cpu msr event_reg operand_reg
      → (msr_operands env m.trace).0 ≡ some (res_id_to_msr id, value)
      → (handler_report_event env info m).response ≡ answer_by ((policies m).policy id) value
  unfolding rules
  handler_report_event-answer_by event_reg operand_reg m still d operands =
      let run : IsRunning (entering_msr m) = record {
        initialised = still.initialised;
        loaded = still.loaded;
        no_fault = still.no_fault;
      } in
      ap (λ x. x.response) (reported_msr env info event_reg operand_reg m still.initialised d)
      ∙ event-answer_by (entering_msr m) run operands

-- The promise of the program for a model-specific register, at any time. If the handler gets its memory
-- and the hypervisor delivers updates of resources only, then after every sequence of events, a WRMSR
-- whose RCX is the number of a register that the handler's table knows, with no bit set above it, is
-- answered by the policies that the messages so far have left, if there is memory for the reads of the
-- guest's registers and the hypervisor answers them: it is allowed if the register has no policy; a
-- sticky policy allows the value that the lower halves of RDX and RAX make if it is its own and redirects
-- any other, a skip one redirects, any other allows.
pub report_events-answer_by :
    (env : Env) (info : EventInfo) (id rax rdx : ℕ)
    → id ≢ resource_id_unknown
    → res_id_to_msr id ≢ ia32_msr_invalid
    → (memory : ℕ → LogBuffer) (t : Trace) (events : List EventInfo)
      (event_reg operand_reg : CpuReg)
    → env.malloc_succeeds t ≡ true
    → NamesResources env
    → info.event_data ≡ cpu msr event_reg operand_reg
    → IsWrmsr env (after env memory t events).trace (res_id_to_msr id) rax rdx
    → (handler_report_event env info (after env memory t events)).response
      ≡ answer_by (left_by env memory t events id) (join rdx rax)
report_events-answer_by env info id rax rdx named known memory t events event_reg operand_reg got
      names d w =
    let m : Machine = after env memory t events in
    handler_report_event-answer_by env info id (join rdx rax) named known event_reg operand_reg m
      (report_events-init env memory t events got) d
      (msr_operands-IsWrmsr env m.trace id rax rdx known w)
    ∙ ap (λ p. answer_by (p.policy id) (join rdx rax))
        (policies-report_events env memory t events got names)
