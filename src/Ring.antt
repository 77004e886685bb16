-- ===== src/Ring.antt =====
-- The ring of log entries that handler/log.c writes and driver/log.c reads, against the history of
-- the records of one CPU.
pub mod Write
pub mod Read
pub mod Region
pub mod RoundTrip
pub mod Event
pub mod Reader
use ikgt_usage.Base.{ℕ, zero, suc, ◌+◌, ◌-◌, ◌%◌, ◌≤◌, ◌<◌, ◌≡◌, List, [], ◌∷◌, ltb, if◌then◌else◌}
use ikgt_usage.PolicyCommon.{LogEntry, LogBuffer, logs_per_cpu, get_last_seq_num}

-- The entry of the record with sequence number `n`.
abbrev pub entry : ℕ → ℕ → ℕ → ℕ → ℕ → LogEntry
entry n rip reason qualification gva = record {
  seq_num = n;
  reason = reason;
  valid = 1;
  qualification = qualification;
  rip = rip;
  gva = gva;
}

-- The slot of sequence number `n`, counted from the start of the buffer.
abbrev pub slot : ℕ → ℕ
slot n = n % logs_per_cpu + 1

-- The buffer that starts at `start` holds a history of `n` records: the head is `n`, the last 203
-- are in their slots, and the slots that no record has reached are not valid.
pub record Holds (buffer : LogBuffer) (start : ℕ) (history : ℕ → LogEntry) (n : ℕ) : Type 0 where
  pub head : get_last_seq_num buffer start ≡ n
  pub slots : (s : ℕ) → s < n → n ≤ s + logs_per_cpu → buffer (start + slot s) ≡ history s
  pub marked : (s : ℕ) → s < n → (history s).valid ≡ 1
  pub unused : (i : ℕ) → n < i → i ≤ logs_per_cpu → (buffer (start + i)).valid ≡ 0

-- The last `k` of the first `n` records, oldest first.
pub recent : (ℕ → LogEntry) → ℕ → ℕ → List LogEntry
recent history n zero = []
recent history n (suc k) =
    let rest = recent history n k in if ltb k n then history (n - suc k) ∷ rest else rest
