-- ===== src/Handler/Crx/Outcome.antt =====
-- What the handlers of CR0 and CR4 answer once the values are read.
use ikgt_usage.Base.{
  ℕ, List, [], ◌∷◌, ◌≡◌, ◌≢◌, refl, ◌∙◌, sym, subst, some, true, false, arith, bit_xor, ==_false,
  Bool-cases, inl, inr, if◌then◌else◌,
}
use ikgt_usage.Handler.Entry.{PolicyTable, PolicyEntry}
use native.Mathlib.Decide.{ℕ_discrete}
use ikgt_usage.Handler.Api.{
  EventInfo, Env, VmcsReg, redirect, allow, Trace, malloc, free, write_guest_registers, is_success,
}
use ikgt_usage.Handler.Machine.{Machine, resume, modify}
use ikgt_usage.Handler.Utils.{write_guest_reg}
use ikgt_usage.Handler.Log.{log_event}
use ikgt_usage.Handler.Crx.{
  Crx, CrxCtx, scan_step, process_crx_policy, apply_crx_action, scan_slots, scan_table,
  scan_crx_policies, finish_crx_event, decide_crx,
}
use ikgt_usage.Handler.Crx.Value.{start_ctx, policy_value}

scan_step-cur :
    (crx : Crx) (e : PolicyEntry) (ctx : CrxCtx) → (scan_step crx e ctx).1.cur_value ≡ ctx.cur_value
unfolding scan_step process_crx_policy apply_crx_action
scan_step-cur crx e ctx = ground arith

scan-cur :
    (crx : Crx) (es : List PolicyEntry) (ctx : CrxCtx)
    → (scan_crx_policies crx es ctx).1.cur_value ≡ ctx.cur_value
unfolding scan_crx_policies
scan-cur crx [] ctx = refl
scan-cur crx (e ∷ es) ctx = scan-cur crx es (scan_step crx e ctx).1 ∙ scan_step-cur crx e ctx

-- How the handler answers a write over `cur` for which the policies give `value`. `kept`: the value is the
-- register's own, and the write is redirected. Otherwise the write is allowed, and the last calls are
-- those of `write_guest_reg`: `written`, the hypervisor puts the value in the operand's register `id` in
-- place of the guest's; `refused`, it does not; `no_memory`, it is not even called. In the last two the
-- guest's own value goes through.
pub data Outcome (env : Env) (id : VmcsReg) (value cur : ℕ) (m : Machine) : Type 0 where
  kept : value ≡ cur → m.response ≡ redirect → Outcome env id value cur m
  written :
      (before : Trace)
      → value ≢ cur
      → m.response ≡ allow
      → m.trace ≡ free ∷ write_guest_registers id value ∷ malloc true ∷ before
      → is_success (env.write_register (malloc true ∷ before) id value) ≡ true
      → Outcome env id value cur m
  refused :
      (before : Trace)
      → value ≢ cur
      → m.response ≡ allow
      → m.trace ≡ free ∷ write_guest_registers id value ∷ malloc true ∷ before
      → is_success (env.write_register (malloc true ∷ before) id value) ≡ false
      → Outcome env id value cur m
  no_memory :
      (before : Trace)
      → value ≢ cur
      → m.response ≡ allow
      → m.trace ≡ malloc false ∷ before
      → env.malloc_succeeds before ≡ false
      → Outcome env id value cur m

finish-Outcome :
    (env : Env) (info : EventInfo) (id : VmcsReg) (ctx : CrxCtx) (m : Machine)
    → Outcome env id ctx.new_value ctx.cur_value (finish_crx_event env info id ctx m)
unfolding finish_crx_event write_guest_reg
finish-Outcome env info id ctx m =
    let value : ℕ = ctx.new_value in
    let before : Trace = (if ctx.log then log_event env info m else m).trace in
    elim (ℕ_discrete value ctx.cur_value) [
      | yes p ↦ Outcome.kept p (ground (arith, p))
      | no ne ↦ elim (Bool-cases (env.malloc_succeeds before)) [
        | inr h ↦ Outcome.no_memory before ne (ground (arith, ne)) (ground (arith, ne, h)) h
        | inl h ↦
            elim (Bool-cases (is_success (env.write_register (malloc true ∷ before) id value))) [
              | inl taken ↦
                  Outcome.written before ne (ground (arith, ne)) (ground (arith, ne, h)) taken
              | inr lost ↦
                  Outcome.refused before ne (ground (arith, ne)) (ground (arith, ne, h)) lost
            ]
      ]
    ]

-- When the guest's value differs from the register's, the handler answers with the value that the policies
-- give.
pub decide_crx_lem :
    (crx : Crx) (env : Env) (info : EventInfo) (id : VmcsReg) (cur new : ℕ) (t : PolicyTable)
    (m : Machine)
    → bit_xor cur new ≢ 0
    → m.table ≡ some t
    → Outcome env id
        (policy_value crx t (crx.counters m) cur new)
        cur
        (decide_crx crx env info (id, (cur, new)) m).1
unfolding decide_crx scan_table scan_slots policy_value
decide_crx_lem crx env info id cur new t m ne h =
    let scanned = scan_crx_policies crx t.policy_entry (start_ctx cur new (crx.counters m)) in
    let counted : Machine =
      crx.set_counters (record m { table = some (record t { policy_entry = scanned.0 }) })
        scanned.1.counters in
    rw (==_false (bit_xor cur new) 0 ne) (
      subst
        (λ o.
          Outcome env id scanned.1.new_value cur
            (resume (λ ctx. modify (finish_crx_event env info id ctx))
              (scan_slots crx cur new o m).0 (scan_slots crx cur new o m).1).1)
        (sym h)
        (subst
          (λ c.
            Outcome env id scanned.1.new_value c (finish_crx_event env info id scanned.1 counted))
          (scan-cur crx t.policy_entry (start_ctx cur new (crx.counters m)))
          (finish-Outcome env info id scanned.1 counted)))
