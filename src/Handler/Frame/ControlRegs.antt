-- ===== src/Handler/Frame/ControlRegs.antt =====
-- handler/cpu_cr0.c and handler/cpu_cr4.c on the policies of a machine.
use ikgt_usage.Base.{
  ℕ, ◌≡◌, refl, true, false, Option, none, some, arith, ◌==◌, if◌then◌else◌, bit_xor, inc64, Bool,
}
use ikgt_usage.Handler.Entry.{PolicyTable}
use ikgt_usage.Handler.Api.{VmcsReg, CpuReg, EventInfo, Env, allow, Io}
use ikgt_usage.Handler.Machine.{
  Machine, PolicyCounters, Steps, resume, ◌>>=◌, return_if, modify, lift, check_status,
}
use ikgt_usage.Handler.Log.{log_event}
use ikgt_usage.Handler.Crx.{
  Crx, CrxCtx, crx_operands, finish_crx_event, decide_crx, scan_crx_policies, scan_slots,
  scan_table, handle_crx_event,
}
use ikgt_usage.Handler.Crx.Value.{start_ctx}
use ikgt_usage.Handler.Frame.{
  Keeps, Keeps-refl, Keeps-trans, Keeps-same, Keeps-table, Keeps-fault, log_event-Keeps,
  scan_crx_policies-rules,
}

-- A step that keeps the policies from every machine, and a sequence of two.
abbrev KeepsStep : {A : Type 0} → Steps A → Type 0
KeepsStep s = (m : Machine) → Keeps m (s m).1

bind-Keeps :
    {A B : Type 0} (s : Steps A) (f : A → Steps B)
    → KeepsStep s
    → ((a : A) → KeepsStep (f a))
    → KeepsStep (s >>= f)
bind-Keeps {A = A} s f h k m = after (s m).0
  where
    after : (r : Option A) → Keeps m (resume f r (s m).1).1
    after none = h m
    after (some a) = Keeps-trans m (s m).1 (f a (s m).1).1 (h m) (k a (s m).1)

return_if-Keeps : (b : Bool) → KeepsStep (return_if b)
return_if-Keeps true m = Keeps-refl m
return_if-Keeps false m = Keeps-refl m

call-Keeps : {A : Type 0} (io : Io A) → KeepsStep (lift io)
call-Keeps io m = Keeps-same m (lift io m).1 refl refl refl refl

status-Keeps : {A : Type 0} (io : Io (_ × A)) → KeepsStep (lift io >>= check_status)
status-Keeps io m = Keeps-same m (lift io m).1 refl refl refl refl

pub log_if-Keeps :
    (b : Bool) (env : Env) (e : EventInfo) (m : Machine)
    → Keeps m (if b then log_event env e m else m)
log_if-Keeps true env e m = log_event-Keeps env e m
log_if-Keeps false env e m = Keeps-refl m

finish_crx_event-Keeps :
    (env : Env) (e : EventInfo) (id : VmcsReg) (ctx : CrxCtx) (m : Machine)
    → Keeps m (finish_crx_event env e id ctx m)
unfolding finish_crx_event
finish_crx_event-Keeps env e id ctx m = Keeps-trans m _ _ (log_if-Keeps ctx.log env e m) (
    Keeps-same (if ctx.log then log_event env e m else m) (finish_crx_event env e id ctx m)
      (ground arith) (ground arith) (ground arith) (ground arith))

module _ (crx : Crx)
    (frame : (m : Machine) (c : PolicyCounters) → Keeps m (crx.set_counters m c)) where
  scan_slots-Keeps :
      (cur new : ℕ) (m : Machine) (o : Option PolicyTable)
      → m.table ≡ o
      → Keeps m (scan_slots crx cur new o m).1
  unfolding scan_slots
  scan_slots-Keeps cur new m none e = Keeps-fault m e
  scan_slots-Keeps cur new m (some t) e =
      let scanned = scan_crx_policies crx t.policy_entry (start_ctx cur new (crx.counters m)) in
      Keeps-trans m (record m { table = some (record t { policy_entry = scanned.0 }) }) _
        (Keeps-table m t scanned.0 e
          (scan_crx_policies-rules crx t.policy_entry (start_ctx cur new (crx.counters m))))
        (frame _ _)

  scan_table-Keeps : (cur new : ℕ) → KeepsStep (scan_table crx cur new)
  unfolding scan_table
  scan_table-Keeps cur new m = scan_slots-Keeps cur new m m.table refl

  crx_operands-Keeps : (env : Env) (operand : CpuReg) → KeepsStep (crx_operands crx env operand)
  unfolding crx_operands
  crx_operands-Keeps env operand m =
      let start : Machine = record m { response = allow } in
      let counted : Machine =
        crx.set_counters start
          (record (crx.counters start) { count = inc64 (crx.counters start).count }) in
      Keeps-trans m start _ (Keeps-same m start refl refl refl refl)
        (Keeps-trans start counted _ (frame start _) (Keeps-same counted _ refl refl refl refl))

  decide_crx-Keeps :
      (env : Env) (e : EventInfo) (id : VmcsReg) (cur new : ℕ)
      → KeepsStep (decide_crx crx env e (id, (cur, new)))
  unfolding decide_crx
  decide_crx-Keeps env e id cur new =
      bind-Keeps (return_if (bit_xor cur new == 0))
        (λ _. scan_table crx cur new >>= λ ctx. modify (finish_crx_event env e id ctx))
        (return_if-Keeps _)
        λ _.
          bind-Keeps (scan_table crx cur new) (λ ctx. modify (finish_crx_event env e id ctx))
            (scan_table-Keeps cur new) (finish_crx_event-Keeps env e id)

  pub handle_crx_event-Keeps :
      (env : Env) (e : EventInfo) (operand : CpuReg)
      → (m : Machine) → Keeps m (handle_crx_event crx env e operand m)
  unfolding handle_crx_event
  handle_crx_event-Keeps env e operand =
      bind-Keeps (crx_operands crx env operand) (decide_crx crx env e)
        (crx_operands-Keeps env operand) λ (id, (cur, new)). decide_crx-Keeps env e id cur new
