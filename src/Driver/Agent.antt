-- ===== src/Driver/Agent.antt =====
-- The driver's life: `init_log` and `dump_log` of driver/log.c with their allocations, `init_agent` of
-- driver/main.c, the registration in driver/configfs_setup.c and `ikgt_debug` of driver/debug.c.
pub mod Outcome
use ikgt_usage.Base.{
  ℕ, zero, suc, ◌*◌, Bool, true, false, List, ◌∷◌, Option, none, some, ◌==◌, if◌then◌else◌, u32,
}
use ikgt_usage.Base.Text.{codes, eq_ignoring_case}
use ikgt_usage.PolicyCommon.{
  PolicyMessage, LogBuffer, page_4kb, log_pages_per_cpu, policy_init_log, policy_debug_command,
  get_cpu_log_buffer_start,
}
use ikgt_usage.Driver.Kernel.{
  register_subsystem, unregister_subsystem, register_sysctl_table, unregister_sysctl_table, Kernel,
  Io, pure, ◌>>=◌, ◌>>◌, allocate_at, allocate, ikgt_hypercall, release,
}
use ikgt_usage.Driver.Log.{PageText, empty_page, dump_log}

-- The static variables of log.c, but for the memory that `log_data_gva` points to.
pub record AgentLog : Type 0 where
  pub log_record_seq_num : Option (ℕ → ℕ)
  pub num_of_cpus : ℕ
  pub log_data_gva : ℕ
  pub is_logging_running : Bool

-- `log_buffer_init`: `meta.head = 0`, and where DEBUG is defined `meta.test = 0`, which lies over the
-- reason and the valid mark of a record.
unfoldable pub log_buffer_init : Bool → LogBuffer → ℕ → LogBuffer
log_buffer_init debug buffer start i =
    if start == i
    then if debug
      then record (buffer i) { seq_num = 0; reason = 0; valid = 0 }
      else record (buffer i) { seq_num = 0 }
    else buffer i

-- The loop of `init_log` over the CPUs, for the memory at `log_data_gva`: the first `n` of them.
unfoldable pub init_buffers : Bool → ℕ → LogBuffer → LogBuffer
unfolding log_buffer_init get_cpu_log_buffer_start
init_buffers debug zero buffer = buffer
init_buffers debug (suc n) buffer =
    log_buffer_init debug (init_buffers debug n buffer) (get_cpu_log_buffer_start n)

-- `init_log`: the address that it returns (0 is NULL), the size, and the variables. When the second
-- allocation fails, `log_record_seq_num` is freed but keeps its value. The new block is all zeros,
-- which `log_buffer_init` leaves so.
unfoldable pub init_log : Kernel → AgentLog → Io (ℕ × ℕ × AgentLog)
init_log kernel log = do
  let cpus = kernel.num_online_cpus
  let size = u32 (cpus * log_pages_per_cpu * page_4kb)
  seq_nums ← allocate kernel
  let log' = record log {
    num_of_cpus = cpus;
    log_record_seq_num = if seq_nums then some (λ _. 0) else none;
  }
  address ← (if seq_nums then allocate_at kernel else pure 0)
  (if seq_nums then (if address == 0 then release else pure tt) else pure tt)
  pure (
      if address == 0
      then (0, size, record log' { log_data_gva = if seq_nums then 0 else log.log_data_gva })
      else (address, size, record log' { log_data_gva = address; is_logging_running = true }))

-- `dump_log`, for a page that is not NULL: the bytes, the offset that it returns, and the variables.
-- The two buffers are freed again; without them nothing is dumped. The outer `none` is BUG_ON.
unfoldable pub show_log : Kernel → LogBuffer → AgentLog → Io (Option (PageText × AgentLog))
unfolding dump_log
show_log kernel buffer log = elim log.log_record_seq_num [
  | none ↦ pure (some (empty_page, log))
  | some seq_nums ↦ do
    sz_log_record ← allocate kernel
    results ← (if sz_log_record then allocate kernel else pure false)
    (if sz_log_record then release else pure tt)
    (if results then release else pure tt)
    pure (
        if results
        then elim (dump_log buffer log.num_of_cpus seq_nums) [
          | none ↦ none
          | some (page, seq_nums') ↦ some (page, record log { log_record_seq_num = some seq_nums' })
        ]
        else some (empty_page, log))
]

-- A `policy_message_t` with one command; what `init_agent` and `ikgt_debug` leave uninitialised in
-- it is `rest`.
abbrev pub log_command : PolicyMessage → ℕ → ℕ → PolicyMessage
log_command rest address size = record rest {
  command = policy_init_log;
  count = 1;
  log_param = record { log_addr = address; log_size = size };
}

-- `init_configfs_setup`: the array holds one subsystem, so a failure has nothing to unregister.
unfoldable pub init_configfs_setup : Kernel → Io Bool
init_configfs_setup kernel t = (kernel.register_succeeds t, register_subsystem ∷ t)

-- `exit_configfs_setup`, over the array of one subsystem
unfoldable pub exit_configfs_setup : Io (Unit {0})
exit_configfs_setup t = (tt, unregister_subsystem ∷ t)

unfoldable pub init_debug : Io (Unit {0})
init_debug t = (tt, register_sysctl_table ∷ t)

unfoldable pub uninit_debug : Io (Unit {0})
uninit_debug t = (tt, unregister_sysctl_table ∷ t)

-- `init_agent`: the result and the variables. `debug` says whether DEBUG is defined.
unfoldable pub init_agent : Kernel → Bool → PolicyMessage → AgentLog → Io (ℕ × AgentLog)
unfolding init_log init_configfs_setup init_debug
init_agent kernel debug rest log = do
  (if debug then init_debug else pure tt)
  buffer ← init_log kernel log
  if buffer.0 == 0 then pure (1, buffer.2) else (do
    ret ← ikgt_hypercall kernel (log_command rest buffer.0 buffer.1)
    if ret then (do init_configfs_setup kernel; pure (0, buffer.2)) else pure (1, buffer.2))

unfoldable pub exit_agent : Bool → Io (Unit {0})
unfolding exit_configfs_setup uninit_debug
exit_agent debug = do exit_configfs_setup; (if debug then uninit_debug else pure tt)

-- `ikgt_debug`; the result of the hypercall is not read.
unfoldable pub ikgt_debug : Kernel → PolicyMessage → ℕ → Io (Unit {0})
ikgt_debug kernel rest parameter = do
  ikgt_hypercall kernel
      (record rest { command = policy_debug_command; count = 1; debug_parameter = parameter })
  pure tt

-- The type of a group's children in configfs; a name that is none of the four leaves none.
pub data Children : Type 0 where
  cr0_children cr4_children msr_children log_children no_children : Children

unfoldable pub children_of : List ℕ → Children
children_of name =
    if eq_ignoring_case name (codes "cr0")
    then cr0_children
    else if eq_ignoring_case name (codes "cr4")
    then cr4_children
    else if eq_ignoring_case name (codes "msr")
    then msr_children
    else if eq_ignoring_case name (codes "log")
    then log_children
    else no_children

-- `group_children_make_group`: `none` is -ENOMEM.
unfoldable pub group_children_make_group : Kernel → List ℕ → Io (Option Children)
unfolding children_of
group_children_make_group kernel name = do
  allocated ← allocate kernel
  pure (if allocated then some (children_of name) else none)

-- `group_children_attr_show`
abbrev pub group_children_attr_show : List ℕ
group_children_attr_show =
    codes
      "ikgt_agent\nThese file subsystem allows to create groups for various cpu assets.\nThese groups can be cr0, cr4, msr, log, etc.\n"
