-- ===== src/Driver/Agent/Outcome.antt =====
-- driver/main.c: the four ways in which `init_agent` ends.
use ikgt_usage.Base.{
  ℕ, ◌*◌, ◌≡◌, ◌≢◌, Bool, true, false, ◌∷◌, if◌then◌else◌, u32, arith, some, none, inl, inr,
  Bool-cases,
}
use native.Mathlib.Decide.{ℕ_discrete}
use ikgt_usage.PolicyCommon.{PolicyMessage, page_4kb, log_pages_per_cpu}
use ikgt_usage.Driver.Kernel.{
  Trace, Kernel, kzalloc, kfree, hypercall, register_subsystem, register_sysctl_table,
}
use ikgt_usage.Driver.Agent.{
  AgentLog, init_log, init_configfs_setup, init_debug, init_agent, log_command,
}

-- The bytes of the log memory.
abbrev pub log_bytes : Kernel → ℕ
log_bytes kernel = u32 (kernel.num_online_cpus * log_pages_per_cpu * page_4kb)

-- The calls that come before the log memory is asked for.
abbrev pub entered : Bool → Trace → Trace
entered debug t = if debug then register_sysctl_table ∷ t else t

module _ (kernel : Kernel) (debug : Bool) (rest : PolicyMessage) (log : AgentLog) (t : Trace) where
  -- The address of the sequence numbers and what came before the next call, and so on.
  abbrev pub numbers_at : ℕ
  numbers_at = kernel.kzalloc_address (entered debug t)

  abbrev pub after_numbers : Trace
  after_numbers = kzalloc numbers_at ∷ entered debug t

  abbrev pub log_at : ℕ
  log_at = kernel.kzalloc_address after_numbers

  abbrev pub after_log : Trace
  after_log = kzalloc log_at ∷ after_numbers

  abbrev pub start_message : PolicyMessage
  start_message = log_command rest log_at (log_bytes kernel)

  -- The variables of log.c when both blocks are allocated.
  abbrev pub log_ready : AgentLog
  log_ready = record {
    log_record_seq_num = some (λ _. 0);
    num_of_cpus = kernel.num_online_cpus;
    log_data_gva = log_at;
    is_logging_running = true;
  }

  -- The ways in which `init_agent` ends, with its result and all calls.
  pub data Outcome : Type 0 where
    no_numbers :
        (log' : AgentLog)
        → numbers_at ≡ 0
        → init_agent kernel debug rest log t ≡ ((1, log'), after_numbers)
        → Outcome
    no_log :
        (log' : AgentLog)
        → numbers_at ≢ 0
        → log_at ≡ 0
        → init_agent kernel debug rest log t ≡ ((1, log'), kfree ∷ after_log)
        → Outcome
    refused :
        numbers_at ≢ 0
        → log_at ≢ 0
        → kernel.hypercall_succeeds after_log start_message ≡ false
        → init_agent kernel debug rest log t ≡ ((1, log_ready), hypercall start_message ∷ after_log)
        → Outcome
    loaded :
        numbers_at ≢ 0
        → log_at ≢ 0
        → kernel.hypercall_succeeds after_log start_message ≡ true
        → init_agent kernel debug rest log t
          ≡ ((0, log_ready), register_subsystem ∷ hypercall start_message ∷ after_log)
        → Outcome

-- `init_agent` ends in one of four ways, whatever the kernel answers: without the sequence numbers it
-- returns 1 and calls nothing more; without the log memory it frees the numbers and returns 1; if the
-- handler refuses the log it returns 1, keeps both blocks and registers nothing; and otherwise it
-- returns 0, after it has sent the address and the size of the log memory, and only then registered
-- configfs.
pub init_agent-Outcome :
    (kernel : Kernel) (debug : Bool) (rest : PolicyMessage) (log : AgentLog) (t : Trace)
    → Outcome kernel debug rest log t
unfolding init_agent init_log init_configfs_setup init_debug
init_agent-Outcome kernel debug rest log t =
    let a : ℕ = numbers_at kernel debug rest log t in
    let b : ℕ = log_at kernel debug rest log t in
    elim (ℕ_discrete a 0) [
      | yes z ↦
          Outcome.no_numbers
            (record log { num_of_cpus = kernel.num_online_cpus; log_record_seq_num = none }) z
            (ground (arith, z))
      | no nz ↦ elim (ℕ_discrete b 0) [
        | yes z' ↦
            Outcome.no_log
              (record log {
                num_of_cpus = kernel.num_online_cpus;
                log_record_seq_num = some (λ _. 0);
                log_data_gva = 0;
              })
              nz z' (ground (arith, nz, z'))
        | no nz' ↦
            elim (Bool-cases (
              kernel.hypercall_succeeds (after_log kernel debug rest log t)
                (start_message kernel debug rest log t))) [
                  | inl h ↦ Outcome.loaded nz nz' h (ground (arith, nz, nz', h))
                  | inr h ↦ Outcome.refused nz nz' h (ground (arith, nz, nz', h))
                ]
      ]
    ]
