-- ===== src/Handler/Balance/Events.antt =====
-- The blocks allocated by the handlers of handler/cpu_cr0.c, cpu_cr4.c, cpu_msr.c and log.c.
use ikgt_usage.Base.{
  ℕ, ◌≡◌, refl, ap, ◌∙◌, true, false, Bool, List, ◌∷◌, Option, none, some, arith, if◌then◌else◌,
  ◌==◌, bit_xor,
}
use ikgt_usage.PolicyCommon.{LogMessage, permission_read}
use ikgt_usage.Handler.Entry.{PolicyEntry, PolicyTable, policy_entry_w_has_log}
use ikgt_usage.Handler.Api.{Env, VmcsReg, CpuReg, EventInfo, gva_to_gpa, gpa_to_hva}
use ikgt_usage.Handler.Machine.{Machine, Steps, resume, ◌>>=◌, return_if, modify, PolicyCounters}
use ikgt_usage.Handler.Log.{log_event, start_log}
use ikgt_usage.Handler.Crx.{
  Crx, CrxCtx, scan_slots, scan_table, crx_operands, finish_crx_event, decide_crx, handle_crx_event,
}
use ikgt_usage.Handler.Msr.{
  msr_operands, process_msr_policy, found_msr, scan_msr_slots, decide_msr, handle_msr_event,
  find_msr_policy,
}
use ikgt_usage.Handler.Balance.{
  live, write_guest_reg-IsBalanced, read_operands-IsBalanced, msr_operands-IsBalanced,
  util_monitor_memory_ex-IsBalanced,
}

-- As many blocks in `m'` as in `m`.
abbrev pub IsEven : Machine → Machine → Type 0
IsEven m m' = live m'.trace ≡ live m.trace

abbrev IsEvenStep : {A : Type 0} → Steps A → Type 0
IsEvenStep s = (m : Machine) → IsEven m (s m).1

bind-IsEven :
    {A B : Type 0} (s : Steps A) (f : A → Steps B)
    → IsEvenStep s
    → ((a : A) → IsEvenStep (f a))
    → IsEvenStep (s >>= f)
bind-IsEven {A = A} s f h k m = after (s m).0
  where
    after : (r : Option A) → IsEven m (resume f r (s m).1).1
    after none = h m
    after (some a) = k a (s m).1 ∙ h m

pub log_event-IsEven : (env : Env) (e : EventInfo) (m : Machine) → IsEven m (log_event env e m)
unfolding log_event live
log_event-IsEven env e m = ground arith

log_if-IsEven :
    (b : Bool) (env : Env) (e : EventInfo) (m : Machine)
    → IsEven m (if b then log_event env e m else m)
log_if-IsEven true env e m = log_event-IsEven env e m
log_if-IsEven false env e m = refl

finish_crx_event-IsEven :
    (env : Env) (e : EventInfo) (id : VmcsReg) (ctx : CrxCtx) (m : Machine)
    → IsEven m (finish_crx_event env e id ctx m)
unfolding finish_crx_event
finish_crx_event-IsEven env e id ctx m =
    let logged : Machine = if ctx.log then log_event env e m else m in
    ground (
      arith,
      write_guest_reg-IsBalanced env id ctx.new_value logged.trace,
      log_if-IsEven ctx.log env e m,
    )

return_if-IsEven : (b : Bool) → IsEvenStep (return_if b)
return_if-IsEven true m = refl
return_if-IsEven false m = refl

module _ (crx : Crx)
    (frame : (m : Machine) (c : PolicyCounters) → (crx.set_counters m c).trace ≡ m.trace) where
  scan_slots-IsEven : (cur new : ℕ) (o : Option PolicyTable) → IsEvenStep (scan_slots crx cur new o)
  unfolding scan_slots
  scan_slots-IsEven cur new none m = refl
  scan_slots-IsEven cur new (some t) m = ap live (frame _ _)

  decide_crx-IsEven :
      (env : Env) (e : EventInfo) (id : VmcsReg) (cur new : ℕ)
      → IsEvenStep (decide_crx crx env e (id, (cur, new)))
  unfolding decide_crx scan_table
  decide_crx-IsEven env e id cur new =
      bind-IsEven (return_if (bit_xor cur new == 0))
        (λ _. scan_table crx cur new >>= λ ctx. modify (finish_crx_event env e id ctx))
        (return_if-IsEven _)
        λ _.
          bind-IsEven (scan_table crx cur new) (λ ctx. modify (finish_crx_event env e id ctx))
            (λ m. scan_slots-IsEven cur new m.table m) (finish_crx_event-IsEven env e id)

  crx_operands-IsEven : (env : Env) (operand : CpuReg) → IsEvenStep (crx_operands crx env operand)
  unfolding crx_operands
  crx_operands-IsEven env operand m =
      read_operands-IsBalanced env crx.register operand _ ∙ ap live (frame _ _)

  -- A handler of a control register, for whatever the hypervisor answers, leaves as many blocks
  -- allocated as it found.
  pub handle_crx_event-IsEven :
      (env : Env) (e : EventInfo) (operand : CpuReg) (m : Machine)
      → IsEven m (handle_crx_event crx env e operand m)
  unfolding handle_crx_event
  handle_crx_event-IsEven env e operand =
      bind-IsEven (crx_operands crx env operand) (decide_crx crx env e)
        (crx_operands-IsEven env operand) λ (id, (cur, new)). decide_crx-IsEven env e id cur new

found_msr-IsEven :
    (env : Env) (e : EventInfo) (value : ℕ) (t : PolicyTable)
    (o : Option (PolicyEntry × List PolicyEntry)) (m : Machine)
    → IsEven m (found_msr env e value t o m)
unfolding found_msr process_msr_policy
found_msr-IsEven env e value t none m = refl
found_msr-IsEven env e value t (some (entry, es)) m =
    log_if-IsEven (policy_entry_w_has_log entry) env e
      (record m { table = some (record t { policy_entry = es }) })

scan_msr_slots-IsEven :
    (env : Env) (e : EventInfo) (value id : ℕ) (o : Option PolicyTable) (m : Machine)
    → IsEven m (scan_msr_slots env e value id o m)
unfolding scan_msr_slots
scan_msr_slots-IsEven env e value id none m = refl
scan_msr_slots-IsEven env e value id (some t) m =
    found_msr-IsEven env e value t (find_msr_policy id t.policy_entry) m

decide_msr-IsEven :
    (env : Env) (e : EventInfo) (o : Option (ℕ × ℕ)) (m : Machine) → IsEven m (decide_msr env e o m)
unfolding decide_msr
decide_msr-IsEven env e none m = refl
decide_msr-IsEven env e (some (id, value)) m = scan_msr_slots-IsEven env e value id m.table m

pub handle_msr_event-IsEven :
    (env : Env) (e : EventInfo) (m : Machine) → IsEven m (handle_msr_event env e m)
unfolding handle_msr_event
handle_msr_event-IsEven env e m =
    decide_msr-IsEven env e (msr_operands env m.trace).0 _ ∙ msr_operands-IsBalanced env m.trace

pub start_log-IsEven :
    (env : Env) (e : EventInfo) (l : LogMessage) (m : Machine) → IsEven m (start_log env e l m)
unfolding start_log live
start_log-IsEven env e l m = ground (
  arith,
  util_monitor_memory_ex-IsBalanced env l.log_addr l.log_size permission_read (
      gpa_to_hva e.view_handle (env.translate_gva m.trace l.log_addr).1
      ∷ gva_to_gpa l.log_addr
      ∷ m.trace),
)
