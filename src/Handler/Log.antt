-- ===== src/Handler/Log.antt =====
-- handler/log.c: the log buffers that the handler fills, a ring for each CPU.
use ikgt_usage.Base.{
  ℕ, ◌+◌, ◌%◌, ◌^◌, Bool, not, Option, none, some, bit_and, ◌==◌, if◌then◌else◌, u32, inc64,
}
use ikgt_usage.PolicyCommon.{
  LogMessage, LogEntry, LogBuffer, log_seq_num_to_index, get_cpu_log_buffer_start, permission_read,
  permission_rwx,
}
use ikgt_usage.Handler.Api.{EventInfo, gva_to_gpa, gpa_to_hva, get_vmexit_reason, Env, call}
use ikgt_usage.Handler.Utils.{util_monitor_memory_ex}
use ikgt_usage.Handler.Machine.{
  Machine, LogState, ◌>>=◌, ◌>>◌, return_if, modify, lift, check_status, run_steps,
}

-- One entry of an array written.
abbrev pub write_entry : LogBuffer → ℕ → LogEntry → LogBuffer
write_entry buffer i e j = if i == j then e else buffer j

-- `meta.head++` on entry `start`
abbrev pub advance_head : LogBuffer → ℕ → LogBuffer
advance_head buffer start =
    write_entry buffer start (record (buffer start) { seq_num = inc64 (buffer start).seq_num })

-- The record goes to the slot of the next sequence number, then the head moves on.
unfoldable pub log_buffer_add_record : LogBuffer → ℕ → ℕ → ℕ → ℕ → ℕ → LogBuffer
log_buffer_add_record buffer start rip reason qualification gva =
    let next_seq_num = (buffer start).seq_num in
    let index = u32 (log_seq_num_to_index next_seq_num) in
    let entry : LogEntry = record {
      seq_num = next_seq_num;
      reason = reason;
      valid = 1;
      qualification = qualification;
      rip = rip;
      gva = gva;
    } in
    advance_head (write_entry buffer (start + index) entry) start

abbrev pub g_log_mask : ℕ
g_log_mask = 0x400

-- `(1L << reason) & g_log_mask`; the processor takes the count of a 64-bit shift modulo 64.
unfoldable pub is_masked : ℕ → Bool
is_masked reason = not (bit_and (2 ^ (reason % 64)) g_log_mask == 0)

-- One array of the host's memory replaced.
abbrev pub set_memory : LogState → ℕ → LogBuffer → LogState
set_memory l hva buffer = record l { memory = λ h. if hva == h then buffer else l.memory h }

unfoldable pub log_event : Env → EventInfo → Machine → Machine
unfolding is_masked get_cpu_log_buffer_start log_buffer_add_record log_seq_num_to_index
log_event env event_info = run_steps do
  reason ← lift (call env.vmexit_reason get_vmexit_reason)
  return_if (is_masked reason.reason)
  modify λ m. elim m.log.log_data_hva [
    | none ↦ m
    | some hva ↦ record m {
      log = set_memory m.log hva (
          log_buffer_add_record (m.log.memory hva)
            (get_cpu_log_buffer_start (u32 event_info.thread_id)) event_info.ia32_reg_rip
            reason.reason reason.qualification reason.gva);
    }
  ]

-- A host address as a pointer: 0 is NULL.
abbrev pub pointer : ℕ → Option ℕ
pointer hva = if hva == 0 then none else some hva

-- A failed translation leaves the new `log_gva` and `log_size` behind.
unfoldable pub start_log : Env → EventInfo → LogMessage → Machine → Machine
unfolding util_monitor_memory_ex
start_log env event_info msg = run_steps do
  return_if (msg.log_addr == 0)
  modify λ m. record m { log = record (m.log) { log_gva = msg.log_addr; log_size = msg.log_size } }
  gpa ←
      (lift (call (λ t. env.translate_gva t msg.log_addr) (gva_to_gpa msg.log_addr))
        >>= check_status)
  hva ←
      (lift (
          call (λ t. env.translate_gpa t event_info.view_handle gpa)
            (gpa_to_hva event_info.view_handle gpa))
        >>= check_status)
  modify λ m. record m { log = record (m.log) { log_data_hva = pointer hva } }
  lift (util_monitor_memory_ex env msg.log_addr msg.log_size permission_read)

unfoldable pub stop_log : Env → Machine → Machine
unfolding util_monitor_memory_ex
stop_log env m = elim m.log.log_data_hva [
  | none ↦ m
  | some _ ↦ record m {
    log = record (m.log) { log_data_hva = none };
    trace =
        if m.log.log_gva == 0
        then m.trace
        else (util_monitor_memory_ex env m.log.log_gva m.log.log_size permission_rwx m.trace).1;
  }
]
