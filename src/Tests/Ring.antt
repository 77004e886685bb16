-- ===== src/Tests/Ring.antt =====
-- The ring of log entries after five exits.
use ikgt_usage.Base.{some, [], u32, true, false, ◌*◌, ◌+◌, ◌≡◌, ◌≤◌, ◌≢◌, ap, refl, arith, min}
use ikgt_usage.PolicyCommon.{
  LogEntry, logs_per_cpu, get_last_seq_num, get_cpu_log_buffer_start, log_entry_size,
  log_pages_per_cpu, page_4kb, log_seq_num_to_index,
}
use ikgt_usage.Handler.Log.{log_buffer_add_record, is_masked, log_event}
use ikgt_usage.Handler.Machine.{Machine, boot}
use ikgt_usage.Driver.Log.{read_logs}
use ikgt_usage.Ring.{Holds, recent}
use ikgt_usage.Ring.Event.{log_event-Holds}
use ikgt_usage.Ring.Region.{add_in_bounds}
use ikgt_usage.Ring.RoundTrip.{
  Exits, history_of, write_exits, write_exits-Holds, read_logs-write_exits,
}
use ikgt_usage.Tests.{cleared, sample_env, message_event}

abbrev exits : Exits
exits = record { rip = λ n. 0x1000 + n; reason = λ n. 28; qualification = λ n. n * 2; gva = λ n. 0 }

cleared_head : get_last_seq_num cleared 0 ≡ 0
unfolding get_last_seq_num
cleared_head = refl

five_exits-Holds : Holds (write_exits cleared 0 exits 5) 0 (history_of exits) 5
five_exits-Holds = write_exits-Holds cleared 0 exits 5 cleared_head (λ i. refl) (omega arith)

read_logs-write_exits_example :
    read_logs (write_exits cleared 0 exits 5) 0 5 3
    ≡ recent (history_of exits) 5 (min 3 logs_per_cpu)
read_logs-write_exits_example =
    read_logs-write_exits cleared 0 exits 5 3 cleared_head (λ i. refl) (omega arith) (omega arith)

written : log_buffer_add_record cleared (get_cpu_log_buffer_start 1) 7 28 0 0 205 ≢ cleared 205
unfolding log_buffer_add_record get_cpu_log_buffer_start log_seq_num_to_index
written e = ground (arith, ap (λ (x : LogEntry). x.valid) e)

add_in_bounds_example : (205 + 1) * log_entry_size ≤ 2 * log_pages_per_cpu * page_4kb
add_in_bounds_example = add_in_bounds cleared 1 2 205 7 28 0 0 (omega arith) written

abbrev logging : Machine
logging = record (boot (λ h. cleared) []) {
  log = record {
    log_data_hva = some 0x5000;
    log_size = 8192;
    log_gva = 0x4000;
    memory = λ h. cleared;
  };
}

unmasked : is_masked 28 ≡ false
unfolding is_masked
unmasked = refl

cleared_start : get_last_seq_num cleared (get_cpu_log_buffer_start (u32 0)) ≡ 0
unfolding get_last_seq_num
cleared_start = refl

abbrev events : Exits
events = record { rip = λ n. 0x1000; reason = λ n. 28; qualification = λ n. 0; gva = λ n. 0 }

cleared-Holds : Holds cleared (get_cpu_log_buffer_start (u32 0)) (history_of events) 0
unfolding write_exits
cleared-Holds =
    write_exits-Holds cleared (get_cpu_log_buffer_start (u32 0)) events 0 cleared_start (λ i. refl)
      (omega arith)

log_event-Holds_example :
    Holds
      ((log_event (sample_env true) message_event logging).log.memory 0x5000)
      (get_cpu_log_buffer_start (u32 0))
      (history_of events)
      1
unfolding boot
log_event-Holds_example =
    log_event-Holds (sample_env true) message_event logging 0x5000 (history_of events) 0 unmasked
      refl (omega arith) refl cleared-Holds
