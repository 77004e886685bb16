-- ===== src/Handler/Msr/Index.antt =====
-- handler/cpu_msr.c: the `switch (rcx)` on values beyond 32 bits.
use ikgt_usage.Base.{ℕ, subst, sym, inc64, ◌∷◌, ◌^◌, ◌≤◌, ◌≡◌, arith, none, true, refl}
use ikgt_usage.Handler.Api.{EventInfo, Env, Trace, gp_rax, gp_rcx, allow, malloc, is_success}
use ikgt_usage.Handler.Utils.{read_guest_reg}
use ikgt_usage.Handler.Machine.{Machine}
use ikgt_usage.Handler.Msr.{msr_guest_reg, msr_operands, read_current, decide_msr, handle_msr_event}

msr_guest_reg-wide : (rcx : ℕ) → 2 ^ 32 ≤ rcx → msr_guest_reg rcx ≡ none
unfolding msr_guest_reg
msr_guest_reg-wide rcx h = ground arith

read-wide :
    (env : Env) (t : Trace)
    → ((t : Trace) → 2 ^ 32 ≤ (env.read_register t gp_rcx).1)
    → is_success (read_guest_reg env gp_rcx t).0.0 ≡ true
    → msr_guest_reg (read_guest_reg env gp_rcx t).0.1 ≡ none
read-wide env t h ok = msr_guest_reg-wide (read_guest_reg env gp_rcx t).0.1 (wide ok)
  where
    wide :
        is_success (read_guest_reg env gp_rcx t).0.0 ≡ true
        → 2 ^ 32 ≤ (read_guest_reg env gp_rcx t).0.1
    wide q = unfold read_guest_reg in ground (arith, q, h (malloc true ∷ t), h t)

msr_operands-wide :
    (env : Env) (t : Trace)
    → ((t : Trace) → 2 ^ 32 ≤ (env.read_register t gp_rcx).1)
    → (msr_operands env t).0 ≡ none
unfolding msr_operands read_current
msr_operands-wide env t h =
    let a = read_guest_reg env gp_rax t in ground (arith, read-wide env a.1 h)

-- When the guest's RCX is 2 ^ 32 or more, `handle_msr_event` allows the write and looks at no policy: the
-- table stays as it is, access counts included, though the processor takes the index from ECX.
pub handle_msr_event-wide :
    (env : Env) (info : EventInfo) (m : Machine)
    → ((t : Trace) → 2 ^ 32 ≤ (env.read_register t gp_rcx).1)
    → ((handle_msr_event env info m).response ≡ allow)
      × ((handle_msr_event env info m).table ≡ m.table)
unfolding handle_msr_event decide_msr
handle_msr_event-wide env info m h =
    let counted : Machine = record m {
      response = allow;
      msr_counters = record (m.msr_counters) { count = inc64 m.msr_counters.count };
    } in
    let operands = msr_operands env counted.trace in
    let read : Machine = record counted { trace = operands.1 } in
    subst
      (λ o.
        ((decide_msr env info o read).response ≡ allow)
        × ((decide_msr env info o read).table ≡ m.table))
      (sym (msr_operands-wide env counted.trace h)) (refl, refl)
