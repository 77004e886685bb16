-- ===== src/Handler/Api.antt =====
-- What the handler calls in ikgt_handler_api.h, which is not part of this repository. Each call may
-- answer anything, and may depend on all calls before it: an `Env` answers from the trace.
use ikgt_usage.Base.{ℕ, Bool, true, false, List, ◌∷◌}
use ikgt_usage.PolicyCommon.{PolicyMessage}
use ikgt_usage.Handler.Entry.{PolicyEntry}

-- `ikgt_status_t`; the codes beside the three that the handler names are `other`.
pub data Status : Type 0 where
  success error allocate_failed : Status
  other : ℕ → Status

abbrev pub is_success : Status → Bool
is_success success = true
is_success _ = false

pub data Response : Type 0 where
  allow redirect unspecified : Response

-- `ikgt_cpu_reg_t`: the enumerators from IKGT_CPU_REG_RAX to IKGT_CPU_REG_CR4, the one for a
-- register that is not known, and values outside that range.
pub data CpuReg : Type 0 where
  rax rbx rcx rdx rdi rsi rbp rsp r8 r9 r10 r11 r12 r13 r14 r15 cr0 cr3 cr4 unknown : CpuReg
  out_of_range : ℕ → CpuReg

-- `ikgt_vmcs_guest_state_reg_id_t`
pub data VmcsReg : Type 0 where
  gp_rax gp_rbx gp_rcx gp_rdx gp_rdi gp_rsi gp_rbp gp_rsp : VmcsReg
  gp_r8 gp_r9 gp_r10 gp_r11 gp_r12 gp_r13 gp_r14 gp_r15 : VmcsReg
  guest_cr0 guest_cr3 guest_cr4 guest_efer guest_pat : VmcsReg
  guest_sysenter_cs guest_sysenter_esp guest_sysenter_eip num_of_regs : VmcsReg

-- the three bits of `perms` and of `attempt`
pub record Permissions : Type 0 where
  pub readable : ℕ
  pub writable : ℕ
  pub executable : ℕ

pub data CpuOp : Type 0 where
  cpuid reg msr other_op : CpuOp

-- `event_specific_data`, by the type of the event: a memory violation, an access to a CPU register,
-- or the guest address of a message.
pub data EventData : Type 0 where
  mem : Permissions → Permissions → EventData
  cpu : CpuOp → CpuReg → CpuReg → EventData
  msg : ℕ → EventData
  other_event : EventData

pub record EventInfo : Type 0 where
  pub thread_id : ℕ
  pub view_handle : ℕ
  pub ia32_reg_rip : ℕ
  pub event_data : EventData

pub record VmexitReason : Type 0 where
  pub reason : ℕ
  pub qualification : ℕ
  pub gva : ℕ

-- one element of `addr_list.item`
pub record AddrItem : Type 0 where
  pub perms : ℕ
  pub gva : ℕ
  pub gpa : ℕ

-- `ikgt_cpu_event_params_t`
pub record CpuEventParams : Type 0 where
  pub cpu_bitmap_0 : ℕ
  pub cpu_bitmap_1 : ℕ
  pub cpu_reg : CpuReg
  pub enable : Bool
  pub cr0_mask : ℕ
  pub cr4_mask : ℕ

-- The calls, with what the handler passes. `malloc` carries its outcome: `false` is NULL.
pub data Call : Type 0 where
  malloc : Bool → Call
  free : Call
  read_guest_registers : VmcsReg → Call
  write_guest_registers : VmcsReg → ℕ → Call
  gva_to_gpa : ℕ → Call
  gpa_to_hva : ℕ → ℕ → Call
  update_page_permission : List AddrItem → Call
  monitor_cpu_events : CpuEventParams → Call
  monitor_msr_writes : ℕ → Bool → Call
  get_vmexit_reason : Call
  copy_gva_to_hva : ℕ → Call

-- The calls so far, the latest first.
abbrev pub Trace : Type 0
Trace = List Call

-- The answers. `stack_entry` is what an uninitialised `policy_entry_t` on the stack holds,
-- `addrinfo_max_count` is IKGT_ADDRINFO_MAX_COUNT, and `debug` says whether DEBUG is defined.
pub record Env : Type 0 where
  pub malloc_succeeds : Trace → Bool
  pub read_register : Trace → VmcsReg → Status × ℕ
  pub write_register : Trace → VmcsReg → ℕ → Status
  pub translate_gva : Trace → ℕ → Status × ℕ
  pub translate_gpa : Trace → ℕ → ℕ → Status × ℕ
  pub set_permissions : Trace → List AddrItem → Status
  pub monitor_cpu : Trace → CpuEventParams → Status
  pub monitor_msr : Trace → ℕ → Bool → Status
  pub vmexit_reason : Trace → VmexitReason
  pub copy_message : Trace → ℕ → Status × PolicyMessage
  pub stack_entry : PolicyEntry
  pub addrinfo_max_count : ℕ
  pub debug : Bool

-- A function that makes calls.
abbrev pub Io : Type 0 → Type 0
Io A = Trace → A × Trace

abbrev pub pure : {A : Type 0} → A → Io A
pure a t = (a, t)

infixl 5 ◌>>=◌ ◌>>◌
abbrev pub ◌>>=◌ : {A B : Type 0} → Io A → (A → Io B) → Io B
◌>>=◌ m f t = let (a, t') = m t in f a t'

abbrev pub ◌>>◌ : {A B : Type 0} → Io A → Io B → Io B
m >> k = m >>= λ _. k

-- Makes the call `c`, which the environment answers by `answer`.
abbrev pub call : {A : Type 0} → (Trace → A) → Call → Io A
call answer c t = (answer t, c ∷ t)

module _ (env : Env) where
  abbrev pub ikgt_malloc : Io Bool
  ikgt_malloc t = (env.malloc_succeeds t, malloc (env.malloc_succeeds t) ∷ t)

  abbrev pub ikgt_free : Io (Unit {0})
  ikgt_free t = (tt, free ∷ t)
