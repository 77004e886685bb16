-- ===== src/Handler/Frame/Cpu.antt =====
-- handler/cpu.c, handler/cpu_msr.c and handler/memory.c on the policies of a machine.
use ikgt_usage.Base.{
  ℕ, ◌≡◌, refl, List, [], ◌∷◌, map, Option, none, some, arith, Option-cases, if◌then◌else◌, inc64,
  inl, inr,
}
use ikgt_usage.Handler.Entry.{
  policy_entry_w_has_log, PolicyEntry, PolicyTable, policy_entry_inc_access_count,
}
use ikgt_usage.Handler.Api.{
  CpuReg, CpuOp, cpuid, reg, msr, other_op, EventInfo, Env, Permissions, allow, unspecified,
}
use ikgt_usage.Handler.Machine.{Machine}
use ikgt_usage.Handler.Log.{log_event}
use ikgt_usage.Handler.Crx.{cr0, cr4, handle_cr0_event, handle_cr4_event}
use ikgt_usage.Handler.Msr.{
  find_msr_policy, process_msr_policy, found_msr, scan_msr_slots, decide_msr, handle_msr_event,
  msr_operands,
}
use ikgt_usage.Handler.Memory.{
  Violation, execute_violation, read_violation, write_violation, unknown_violation, violation_type,
  handle_violation, handle_memory_event,
}
use ikgt_usage.Handler.Events.{handle_reg_event, handle_cpu_event}
use ikgt_usage.Handler.Frame.{
  rule, Keeps, Keeps-refl, Keeps-trans, Keeps-same, Keeps-table, Keeps-fault, log_event-Keeps,
}
use ikgt_usage.Handler.Frame.ControlRegs.{log_if-Keeps, handle_crx_event-Keeps}

find_msr_policy-rules :
    (msr_id : ℕ) (es : List PolicyEntry) (e : PolicyEntry) (es' : List PolicyEntry)
    → find_msr_policy msr_id es ≡ some (e, es')
    → map rule es' ≡ map rule es
unfolding find_msr_policy policy_entry_inc_access_count
find_msr_policy-rules msr_id [] e es' h = cc
find_msr_policy-rules msr_id (x ∷ es) e es' h = elim (Option-cases (find_msr_policy msr_id es)) [
  | inl q ↦ ground (arith, h, q)
  | inr ((y, ys), q) ↦ ground (arith, h, q, find_msr_policy-rules msr_id es y ys q)
]

process_msr_policy-Keeps :
    (env : Env) (info : EventInfo) (value : ℕ) (e : PolicyEntry) (m : Machine)
    → Keeps m (process_msr_policy env info value e m)
unfolding process_msr_policy
process_msr_policy-Keeps env info value e m =
    Keeps-trans m (if policy_entry_w_has_log e then log_event env info m else m) _
      (log_if-Keeps (policy_entry_w_has_log e) env info m)
      (Keeps-same (if policy_entry_w_has_log e then log_event env info m else m)
        (process_msr_policy env info value e m) refl refl refl refl)

scan_msr_slots-Keeps :
    (env : Env) (info : EventInfo) (value msr_id : ℕ) (m : Machine) (o : Option PolicyTable)
    → m.table ≡ o
    → Keeps m (scan_msr_slots env info value msr_id o m)
unfolding scan_msr_slots found_msr
scan_msr_slots-Keeps env info value msr_id m none h = Keeps-fault m h
scan_msr_slots-Keeps env info value msr_id m (some t) h =
    found (find_msr_policy msr_id t.policy_entry) refl
  where
    found :
        (o : Option (PolicyEntry × List PolicyEntry))
        → find_msr_policy msr_id t.policy_entry ≡ o
        → Keeps m (found_msr env info value t o m)
    found none q = Keeps-refl m
    found (some (e, es)) q =
        Keeps-trans m (record m { table = some (record t { policy_entry = es }) }) _
          (Keeps-table m t es h (find_msr_policy-rules msr_id t.policy_entry e es q))
          (process_msr_policy-Keeps env info value e _)

decide_msr-Keeps :
    (env : Env) (info : EventInfo) (o : Option (ℕ × ℕ)) (m : Machine)
    → Keeps m (decide_msr env info o m)
unfolding decide_msr
decide_msr-Keeps env info none m = Keeps-refl m
decide_msr-Keeps env info (some (msr_id, value)) m =
    scan_msr_slots-Keeps env info value msr_id m m.table refl

handle_msr_event-Keeps :
    (env : Env) (info : EventInfo) (m : Machine) → Keeps m (handle_msr_event env info m)
unfolding handle_msr_event
handle_msr_event-Keeps env info m =
    let counted : Machine = record m {
      response = allow;
      msr_counters = record (m.msr_counters) { count = inc64 m.msr_counters.count };
    } in
    let operands = msr_operands env counted.trace in
    let read : Machine = record counted { trace = operands.1 } in
    Keeps-trans m read _ (Keeps-same m read refl refl refl refl)
      (decide_msr-Keeps env info operands.0 read)

handle_violation-Keeps :
    (env : Env) (info : EventInfo) (v : Violation) (m : Machine)
    → Keeps m (handle_violation env info v m)
unfolding handle_violation
handle_violation-Keeps env info execute_violation m = Keeps-same m _ refl refl refl refl
handle_violation-Keeps env info read_violation m = Keeps-same m _ refl refl refl refl
handle_violation-Keeps env info write_violation m =
    let counted : Machine = record m {
      mem_counters = record (m.mem_counters) { write_count = inc64 m.mem_counters.write_count };
      response = allow;
    } in
    Keeps-trans m counted _ (Keeps-same m counted refl refl refl refl)
      (log_event-Keeps env info counted)
handle_violation-Keeps env info unknown_violation m = Keeps-same m _ refl refl refl refl

pub handle_memory_event-Keeps :
    (env : Env) (info : EventInfo) (perms attempt : Permissions) (m : Machine)
    → Keeps m (handle_memory_event env info perms attempt m)
unfolding handle_memory_event
handle_memory_event-Keeps env info perms attempt m =
    let start : Machine = record m { response = unspecified } in
    Keeps-trans m start _ (Keeps-same m start refl refl refl refl)
      (handle_violation-Keeps env info (violation_type perms attempt) start)

handle_reg_event-Keeps :
    (env : Env) (info : EventInfo) (event_reg operand : CpuReg) (m : Machine)
    → Keeps m (handle_reg_event env info event_reg operand m)
unfolding handle_reg_event handle_cr0_event handle_cr4_event
handle_reg_event-Keeps env info CpuReg.cr0 operand m =
    handle_crx_event-Keeps cr0 (λ m c. Keeps-same m _ refl refl refl refl) env info operand m
handle_reg_event-Keeps env info CpuReg.cr4 operand m =
    handle_crx_event-Keeps cr4 (λ m c. Keeps-same m _ refl refl refl refl) env info operand m
handle_reg_event-Keeps env info _ operand m = Keeps-refl m

pub handle_cpu_event-Keeps :
    (env : Env) (info : EventInfo) (op : CpuOp) (event_reg operand : CpuReg) (m : Machine)
    → Keeps m (handle_cpu_event env info op event_reg operand m)
unfolding handle_cpu_event
handle_cpu_event-Keeps env info cpuid event_reg operand m = Keeps-same m _ refl refl refl refl
handle_cpu_event-Keeps env info reg event_reg operand m =
    let counted : Machine = record m {
      cpu_counters = record (m.cpu_counters) { reg_count = inc64 m.cpu_counters.reg_count };
    } in
    Keeps-trans m counted _ (Keeps-same m counted refl refl refl refl)
      (handle_reg_event-Keeps env info event_reg operand counted)
handle_cpu_event-Keeps env info msr event_reg operand m =
    let counted : Machine = record m {
      cpu_counters = record (m.cpu_counters) { msr_count = inc64 m.cpu_counters.msr_count };
    } in
    Keeps-trans m counted _ (Keeps-same m counted refl refl refl refl)
      (handle_msr_event-Keeps env info counted)
handle_cpu_event-Keeps env info other_op event_reg operand m = Keeps-refl m
