-- ===== src/Ring/RoundTrip.antt =====
-- Exits written by handler/log.c and read by driver/log.c.
use ikgt_usage.Base.{ℕ, zero, suc, ◌+◌, ◌^◌, ◌<◌, ◌≡◌, refl, arith, min, subst}
use ikgt_usage.PolicyCommon.{LogEntry, LogBuffer, logs_per_cpu, get_last_seq_num}
use ikgt_usage.Handler.Log.{log_buffer_add_record}
use ikgt_usage.Driver.Log.{read_logs}
use ikgt_usage.Ring.{entry, Holds, recent}
use ikgt_usage.Ring.Write.{add-Holds}
use ikgt_usage.Ring.Read.{read_logs-Holds}

-- The exits to record, each with its four values.
pub record Exits : Type 0 where
  pub rip : ℕ → ℕ
  pub reason : ℕ → ℕ
  pub qualification : ℕ → ℕ
  pub gva : ℕ → ℕ

-- The record of exit `n`.
abbrev pub history_of : Exits → ℕ → LogEntry
history_of x n = entry n (x.rip n) (x.reason n) (x.qualification n) (x.gva n)

-- The first `n` exits written in order.
unfoldable pub write_exits : LogBuffer → ℕ → Exits → ℕ → LogBuffer
unfolding log_buffer_add_record
write_exits buffer start x zero = buffer
write_exits buffer start x (suc n) =
    log_buffer_add_record (write_exits buffer start x n) start (x.rip n) (x.reason n)
      (x.qualification n) (x.gva n)

cleared-Holds :
    (buffer : LogBuffer) (start : ℕ) (x : Exits)
    → get_last_seq_num buffer start ≡ 0
    → ((i : ℕ) → (buffer (start + i)).valid ≡ 0)
    → Holds buffer start (history_of x) 0
cleared-Holds buffer start x h v = record {
  head = h;
  slots = λ s lt le. absurd (omega arith);
  marked = λ s lt. absurd (omega arith);
  unused = λ i lt le. v i;
}

-- After fewer than 2 ^ 64 exits written to a buffer whose head is 0 and whose entries are not valid,
-- the buffer holds their history.
pub write_exits-Holds :
    (buffer : LogBuffer) (start : ℕ) (x : Exits) (n : ℕ)
    → get_last_seq_num buffer start ≡ 0
    → ((i : ℕ) → (buffer (start + i)).valid ≡ 0)
    → n < 2 ^ 64
    → Holds (write_exits buffer start x n) start (history_of x) n
unfolding write_exits
write_exits-Holds buffer start x zero h v lt = cleared-Holds buffer start x h v
write_exits-Holds buffer start x (suc n) h v lt =
    let before = write_exits-Holds buffer start x n h v (omega arith) in
    subst
      (λ k.
        Holds
          (log_buffer_add_record (write_exits buffer start x n) start (x.rip n) (x.reason n)
            (x.qualification n) (x.gva n))
          start (history_of x) k)
      (omega arith)
      (add-Holds (write_exits buffer start x n) start (x.rip n) (x.reason n) (x.qualification n)
        (x.gva n) (history_of x) n (omega arith) refl before)

-- After `n` exits, fewer than 2 ^ 64, written by `log_buffer_add_record` to a buffer whose head is 0
-- and whose entries are not valid, `read_logs` of the driver from the sequence number `n` returns the
-- records of the last `count` exits, oldest first: at most 203 of them, and all of them if there are
-- fewer.
pub read_logs-write_exits :
    (buffer : LogBuffer) (start : ℕ) (x : Exits) (n count : ℕ)
    → get_last_seq_num buffer start ≡ 0
    → ((i : ℕ) → (buffer (start + i)).valid ≡ 0)
    → n < 2 ^ 64
    → count < 2 ^ 32
    → read_logs (write_exits buffer start x n) start n count
      ≡ recent (history_of x) n (min count logs_per_cpu)
read_logs-write_exits buffer start x n count h v lt small =
    read_logs-Holds (write_exits buffer start x n) start (history_of x) n count small
      (write_exits-Holds buffer start x n h v lt)
