-- ===== src/Ring/Region.antt =====
-- The entries that `log_buffer_add_record` of handler/log.c writes.
use ikgt_usage.Base.{ℕ, ◌+◌, ◌*◌, ◌≤◌, ◌<◌, ◌≡◌, ◌≢◌, arith}
use ikgt_usage.PolicyCommon.{
  LogBuffer, logs_per_cpu, log_entry_size, log_pages_per_cpu, page_4kb, log_seq_num_to_index,
  get_cpu_log_buffer_start,
}
use ikgt_usage.Handler.Log.{log_buffer_add_record}

-- `log_buffer_add_record` on the buffer of CPU `cpu` changes no entry of the buffer of another CPU.
pub add-other_cpu :
    (buffer : LogBuffer) (cpu other i rip reason qualification gva : ℕ)
    → cpu ≢ other
    → i ≤ logs_per_cpu
    → log_buffer_add_record buffer
        (get_cpu_log_buffer_start cpu)
        rip
        reason
        qualification
        gva
        (get_cpu_log_buffer_start other + i)
      ≡ buffer (get_cpu_log_buffer_start other + i)
unfolding log_buffer_add_record log_seq_num_to_index get_cpu_log_buffer_start
add-other_cpu buffer cpu other i rip reason qualification gva ne le = ground arith

-- Every entry that `log_buffer_add_record` changes on a CPU below `cpus` ends within the
-- `cpus * 2 * 4096` bytes that the driver allocates.
pub add_in_bounds :
    (buffer : LogBuffer) (cpu cpus j rip reason qualification gva : ℕ)
    → cpu < cpus
    → log_buffer_add_record buffer (get_cpu_log_buffer_start cpu) rip reason qualification gva j
      ≢ buffer j
    → (j + 1) * log_entry_size ≤ cpus * log_pages_per_cpu * page_4kb
unfolding log_buffer_add_record log_seq_num_to_index get_cpu_log_buffer_start
add_in_bounds buffer cpu cpus j rip reason qualification gva lt ne = ground arith
