-- ===== src/Handler/Machine.antt =====
-- The static variables of the handler's files, the response of the current event and the calls made.
use ikgt_usage.Base.{ℕ, Bool, true, false, Option, none, some}
use ikgt_usage.PolicyCommon.{LogBuffer}
use ikgt_usage.Handler.Entry.{PolicyTable}
use ikgt_usage.Handler.Api.{Response, Status, is_success, Trace, Io}

-- `g_cr0_count`, … of cpu_cr0.c, and the same five of cpu_cr4.c and cpu_msr.c
pub record PolicyCounters : Type 0 where
  pub count : ℕ
  pub allow_count : ℕ
  pub skip_count : ℕ
  pub sticky_count_allow : ℕ
  pub sticky_count_skip : ℕ

-- `g_cpu_reg_count` and `g_cpu_msr_count`
pub record CpuCounters : Type 0 where
  pub reg_count : ℕ
  pub msr_count : ℕ

-- `g_mem_read_count`, `g_mem_write_count` and `g_mem_exec_count`
pub record MemCounters : Type 0 where
  pub read_count : ℕ
  pub write_count : ℕ
  pub exec_count : ℕ

-- The static variables of log.c (`g_log_mask` is never written), with the memory that
-- `g_log_data_hva` points into: the array of entries at each host address.
pub record LogState : Type 0 where
  pub log_data_hva : Option ℕ
  pub log_size : ℕ
  pub log_gva : ℕ
  pub memory : ℕ → LogBuffer

-- `table` is `g_policy_table`, `none` for NULL. `fault` is set by an access through a null table.
pub record Machine : Type 0 where
  pub init_status : Bool
  pub table : Option PolicyTable
  pub immutable : Bool
  pub cr0_counters : PolicyCounters
  pub cr4_counters : PolicyCounters
  pub msr_counters : PolicyCounters
  pub cpu_counters : CpuCounters
  pub mem_counters : MemCounters
  pub log : LogState
  pub response : Response
  pub trace : Trace
  pub fault : Bool

abbrev zero_counters : PolicyCounters
zero_counters = record {
  count = 0;
  allow_count = 0;
  skip_count = 0;
  sticky_count_allow = 0;
  sticky_count_skip = 0;
}

-- The static variables as the program starts, beside what is in the memory and the calls already
-- made.
unfoldable pub boot : (ℕ → LogBuffer) → Trace → Machine
boot memory trace = record {
  init_status = false;
  table = none;
  immutable = false;
  cr0_counters = zero_counters;
  cr4_counters = zero_counters;
  msr_counters = zero_counters;
  cpu_counters = record { reg_count = 0; msr_count = 0 };
  mem_counters = record { read_count = 0; write_count = 0; exec_count = 0 };
  log = record { log_data_hva = none; log_size = 0; log_gva = 0; memory = memory };
  response = Response.allow;
  trace = trace;
  fault = false;
}

-- A handler, step by step; `none` means that it has returned early.
abbrev pub Steps : Type 0 → Type 0
Steps A = Machine → Option A × Machine

-- What follows a step that returned early, or went on with a value.
abbrev pub resume : {A B : Type 0} → (A → Steps B) → Option A → Steps B
resume f none m = (none, m)
resume f (some a) m = f a m

infixl 5 ◌>>=◌ ◌>>◌
abbrev pub ◌>>=◌ : {A B : Type 0} → Steps A → (A → Steps B) → Steps B
◌>>=◌ s f m = resume f (s m).0 (s m).1

abbrev pub ◌>>◌ : {A B : Type 0} → Steps A → Steps B → Steps B
s >> k = s >>= λ _. k

abbrev pub give : {A : Type 0} → A → Steps A
give a m = (some a, m)

-- `if (b) return;`
abbrev pub return_if : Bool → Steps (Unit {0})
return_if true m = (none, m)
return_if false m = (some tt, m)

abbrev pub modify : (Machine → Machine) → Steps (Unit {0})
modify f m = (some tt, f m)

-- Makes calls; the rest of the machine stays as it is.
abbrev pub lift : {A : Type 0} → Io A → Steps A
lift io m = (some (io m.trace).0, record m { trace = (io m.trace).1 })

-- `if (IKGT_STATUS_SUCCESS != status) return;`
abbrev pub check_status : {A : Type 0} → Status × A → Steps A
check_status (s, a) m = (elim (is_success s) [ true ↦ some a | false ↦ none ], m)

abbrev pub run_steps : {A : Type 0} → Steps A → Machine → Machine
run_steps s m = (s m).1
