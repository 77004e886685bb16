-- ===== src/Ring/Reader/Start.antt =====
-- driver/log.c: the log memory as `init_log` makes it, and after `test_log`.
use ikgt_usage.Base.{ℕ, zero, suc, ◌≡◌, Bool, [], arith}
use ikgt_usage.PolicyCommon.{LogEntry, LogBuffer, get_cpu_log_buffer_start, get_last_seq_num}
use ikgt_usage.Driver.Agent.{log_buffer_init, init_buffers}
use ikgt_usage.Driver.Debug.{test_log}
use ikgt_usage.Ring.RoundTrip.{Exits}
use ikgt_usage.Ring.Reader.{Rings}
use ikgt_usage.Ring.Reader.Interleaving.{IsConsistent, cleared-IsConsistent, same-Holds}

-- An entry with head 0 and no valid mark.
abbrev IsClear : LogEntry → Type 0
IsClear e = (e.seq_num ≡ 0) × (e.valid ≡ 0)

init_buffers-IsClear :
    (debug : Bool) (n : ℕ) (buffer : LogBuffer)
    → ((j : ℕ) → IsClear (buffer j))
    → (j : ℕ) → IsClear (init_buffers debug n buffer j)
unfolding init_buffers log_buffer_init
init_buffers-IsClear debug zero buffer h j = h j
init_buffers-IsClear debug (suc n) buffer h j =
    ground (arith, init_buffers-IsClear debug n buffer h j)

-- If the block that `init_log` allocates is cleared, then after its loop over the CPUs every ring holds
-- the empty history.
pub init_buffers-IsConsistent :
    (debug : Bool) (cpus : ℕ) (exits : ℕ → Exits) (buffer : LogBuffer)
    → ((j : ℕ) → ((buffer j).seq_num ≡ 0) × ((buffer j).valid ≡ 0))
    → IsConsistent cpus exits (record {
      buffer = init_buffers debug cpus buffer;
      seq_nums = λ i. 0;
      heads = λ i. 0;
      pages = [];
    })
unfolding get_last_seq_num
init_buffers-IsConsistent debug cpus exits buffer h =
    cleared-IsConsistent cpus exits (init_buffers debug cpus buffer)
      (λ i. (init_buffers-IsClear debug cpus buffer h (get_cpu_log_buffer_start i)).0)
      (λ j. (init_buffers-IsClear debug cpus buffer h j).1)

-- `test_log` writes to the head entry of CPU 0 but not to its number: every ring still holds its history.
pub test_log-Rings :
    (buffer : LogBuffer) (cpus : ℕ) (histories : ℕ → ℕ → LogEntry) (heads : ℕ → ℕ)
    → Rings buffer cpus histories heads
    → Rings (test_log buffer) cpus histories heads
unfolding test_log get_last_seq_num get_cpu_log_buffer_start
test_log-Rings buffer cpus histories heads r = record {
  holds = λ i l.
      same-Holds buffer (test_log buffer) (get_cpu_log_buffer_start i) (heads i) (histories i)
        (ground arith) (λ j pos le. ground arith) (r.holds i l);
  numbered = r.numbered;
  range = r.range;
}
