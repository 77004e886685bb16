-- ===== src/Ring/Event.antt =====
-- `log_event` of handler/log.c as one step of the history of its CPU.
use ikgt_usage.Base.{ℕ, ◌+◌, ◌^◌, ◌<◌, ◌≡◌, sym, subst, false, some, arith, u32}
use ikgt_usage.PolicyCommon.{LogEntry, get_cpu_log_buffer_start}
use ikgt_usage.Handler.Api.{Env, EventInfo}
use ikgt_usage.Handler.Machine.{Machine}
use ikgt_usage.Handler.Log.{log_buffer_add_record, is_masked, log_event}
use ikgt_usage.Ring.{entry, Holds}
use ikgt_usage.Ring.Write.{add-Holds}

memory-log_event :
    (env : Env) (e : EventInfo) (m : Machine) (hva : ℕ)
    → is_masked (env.vmexit_reason m.trace).reason ≡ false
    → m.log.log_data_hva ≡ some hva
    → (log_event env e m).log.memory hva
      ≡ log_buffer_add_record
          (m.log.memory hva)
          (get_cpu_log_buffer_start (u32 e.thread_id))
          e.ia32_reg_rip
          (env.vmexit_reason m.trace).reason
          (env.vmexit_reason m.trace).qualification
          (env.vmexit_reason m.trace).gva
unfolding log_event
memory-log_event env e m hva open_ h = ground (arith, open_, h)

-- While a log is set up, an event whose exit reason is not masked extends the history of its CPU by
-- one record: the exit's reason, qualification and address, and the guest's instruction pointer.
pub log_event-Holds :
    (env : Env) (e : EventInfo) (m : Machine) (hva : ℕ) (history : ℕ → LogEntry) (n : ℕ)
    → is_masked (env.vmexit_reason m.trace).reason ≡ false
    → m.log.log_data_hva ≡ some hva
    → n + 1 < 2 ^ 64
    → history n
      ≡ entry n e.ia32_reg_rip
          (env.vmexit_reason m.trace).reason
          (env.vmexit_reason m.trace).qualification
          (env.vmexit_reason m.trace).gva
    → Holds (m.log.memory hva) (get_cpu_log_buffer_start (u32 e.thread_id)) history n
    → Holds
        ((log_event env e m).log.memory hva)
        (get_cpu_log_buffer_start (u32 e.thread_id))
        history
        (n + 1)
log_event-Holds env e m hva history n open_ h small q held =
    subst (λ b. Holds b (get_cpu_log_buffer_start (u32 e.thread_id)) history (n + 1))
      (sym (memory-log_event env e m hva open_ h))
      (add-Holds (m.log.memory hva) (get_cpu_log_buffer_start (u32 e.thread_id)) e.ia32_reg_rip
        (env.vmexit_reason m.trace).reason (env.vmexit_reason m.trace).qualification
        (env.vmexit_reason m.trace).gva history n small q held)
