-- ===== src/Ring/Reader/Interleaving.antt =====
-- handler/log.c and driver/log.c at work on the same log memory: exits written on any CPU and dumps,
-- in any order.
use ikgt_usage.Base.{
  ℕ, ◌+◌, ◌^◌, ◌≤◌, ◌<◌, ◌≡◌, ◌≢◌, refl, sym, ap, subst, List, [], ◌∷◌, ◌∙◌, arith, if◌then◌else◌,
  ◌==◌, some,
}
use native.Mathlib.Decide.{ℕ_discrete}
use ikgt_usage.PolicyCommon.{
  LogEntry, LogBuffer, logs_per_cpu, get_cpu_log_buffer_start, get_last_seq_num,
}
use ikgt_usage.Handler.Log.{log_buffer_add_record}
use ikgt_usage.Driver.Log.{PageText, dump_log}
use ikgt_usage.Ring.{Holds, slot}
use ikgt_usage.Ring.Write.{add-Holds}
use ikgt_usage.Ring.Region.{add-other_cpu}
use ikgt_usage.Ring.RoundTrip.{Exits, history_of, write_exits, write_exits-Holds}
use ikgt_usage.Ring.Reader.{Rings}
use ikgt_usage.Ring.Reader.Pass.{Behind}
use ikgt_usage.Ring.Reader.Dumps.{result-Progress}

-- The log memory, the driver's numbers, how many exits each CPU has written, and the pages that the
-- dumps have returned, the last one first.
pub record LogState : Type 0 where
  pub buffer : LogBuffer
  pub seq_nums : ℕ → ℕ
  pub heads : ℕ → ℕ
  pub pages : List PageText

abbrev pub count_exit : (ℕ → ℕ) → ℕ → ℕ → ℕ
count_exit heads c i = if c == i then heads c + 1 else heads i

-- `log_buffer_add_record` for the next exit of a CPU.
abbrev pub write_exit : LogBuffer → ℕ → Exits → ℕ → LogBuffer
write_exit buffer c x n =
    log_buffer_add_record buffer (get_cpu_log_buffer_start c) (x.rip n) (x.reason n)
      (x.qualification n) (x.gva n)

-- One step: an exit on a CPU of the log, whose number fits 64 bits, or a dump.
pub data LogStep (cpus : ℕ) (exits : ℕ → Exits) (s : LogState) : LogState → Type 0 where
  write :
      (c : ℕ)
      → c < cpus
      → s.heads c + 1 < 2 ^ 64
      → LogStep cpus exits s (record {
        buffer = write_exit s.buffer c (exits c) (s.heads c);
        seq_nums = s.seq_nums;
        heads = count_exit s.heads c;
        pages = s.pages;
      })
  dump :
      (page : PageText) (seq_nums : ℕ → ℕ)
      → dump_log s.buffer cpus s.seq_nums ≡ some (page, seq_nums)
      → LogStep cpus exits s (record s { seq_nums = seq_nums; pages = page ∷ s.pages })

pub data LogRun (cpus : ℕ) (exits : ℕ → Exits) (s : LogState) : LogState → Type 0 where
  at_start : LogRun cpus exits s s
  next : (t u : LogState) → LogRun cpus exits s t → LogStep cpus exits t u → LogRun cpus exits s u

-- The rings hold what has been written, and the driver is not ahead of them.
pub record IsConsistent (cpus : ℕ) (exits : ℕ → Exits) (s : LogState) : Type 0 where
  pub rings : Rings s.buffer cpus (λ i. history_of (exits i)) s.heads
  pub behind : Behind cpus s.seq_nums s.heads

-- Memory whose heads are 0 and whose entries are not valid, before any exit and any dump.
pub cleared-IsConsistent :
    (cpus : ℕ) (exits : ℕ → Exits) (buffer : LogBuffer)
    → ((i : ℕ) → get_last_seq_num buffer (get_cpu_log_buffer_start i) ≡ 0)
    → ((j : ℕ) → (buffer j).valid ≡ 0)
    → IsConsistent cpus exits
        (record { buffer = buffer; seq_nums = λ i. 0; heads = λ i. 0; pages = [] })
cleared-IsConsistent cpus exits buffer h v = record {
  rings = record {
    holds = λ i l.
        unfold write_exits in
        write_exits-Holds buffer (get_cpu_log_buffer_start i) (exits i) 0 (h i)
          (λ j. v (get_cpu_log_buffer_start i + j)) (omega arith);
    numbered = λ i n l. refl;
    range = λ i l. omega arith;
  };
  behind = λ i l. omega arith;
}

-- The history of a buffer depends on its head and its slots only.
pub same-Holds :
    (buffer buffer' : LogBuffer) (start n : ℕ) (history : ℕ → LogEntry)
    → get_last_seq_num buffer' start ≡ get_last_seq_num buffer start
    → ((i : ℕ) → 0 < i → i ≤ logs_per_cpu → buffer' (start + i) ≡ buffer (start + i))
    → Holds buffer start history n
    → Holds buffer' start history n
same-Holds buffer buffer' start n history head same h = record {
  head = head ∙ h.head;
  slots = λ s lt le. same (slot s) (omega arith) (omega arith) ∙ h.slots s lt le;
  marked = h.marked;
  unused = λ i lt le. ap (λ (e : LogEntry). e.valid) (same i (omega arith) le) ∙ h.unused i lt le;
}

-- The head of another CPU's buffer is its entry 0.
head-other_cpu :
    (buffer : LogBuffer) (c i rip reason qualification gva : ℕ)
    → c ≢ i
    → get_last_seq_num
        (log_buffer_add_record buffer (get_cpu_log_buffer_start c) rip reason qualification gva)
        (get_cpu_log_buffer_start i)
      ≡ get_last_seq_num buffer (get_cpu_log_buffer_start i)
unfolding get_last_seq_num
head-other_cpu buffer c i rip reason qualification gva ne =
    let at_zero : get_cpu_log_buffer_start i + 0 ≡ get_cpu_log_buffer_start i = omega arith in
    ap (λ (e : LogEntry). e.seq_num)
      (subst
        (λ j.
          log_buffer_add_record buffer (get_cpu_log_buffer_start c) rip reason qualification gva j
          ≡ buffer j)
        at_zero (add-other_cpu buffer c i 0 rip reason qualification gva ne (omega arith)))

module _ (cpus : ℕ) (exits : ℕ → Exits) where
  write-Holds :
      (s : LogState) (c i : ℕ)
      → IsConsistent cpus exits s
      → c < cpus
      → s.heads c + 1 < 2 ^ 64
      → i < cpus
      → Holds
          (write_exit s.buffer c (exits c) (s.heads c))
          (get_cpu_log_buffer_start i)
          (history_of (exits i))
          (count_exit s.heads c i)
  write-Holds s c i k lt small l =
      let x : Exits = exits c in
      let n : ℕ = s.heads c in
      elim (ℕ_discrete i c) [
        | yes e ↦
            subst
              (λ j.
                Holds (write_exit s.buffer c x n) (get_cpu_log_buffer_start j)
                  (history_of (exits j)) (count_exit s.heads c j))
              (sym e)
              (subst
                (λ m.
                  Holds (write_exit s.buffer c x n) (get_cpu_log_buffer_start c) (history_of x) m)
                (ground arith)
                (add-Holds s.buffer (get_cpu_log_buffer_start c) (x.rip n) (x.reason n)
                  (x.qualification n) (x.gva n) (history_of x) n small refl (k.rings.holds c lt)))
        | no ne ↦
            subst
              (λ m.
                Holds (write_exit s.buffer c x n) (get_cpu_log_buffer_start i)
                  (history_of (exits i)) m)
              (ground arith)
              (same-Holds s.buffer (write_exit s.buffer c x n) (get_cpu_log_buffer_start i)
                (s.heads i) (history_of (exits i))
                (head-other_cpu s.buffer c i (x.rip n) (x.reason n) (x.qualification n) (x.gva n)
                  (λ e. ne (sym e)))
                (λ j pos le.
                  add-other_cpu s.buffer c i j (x.rip n) (x.reason n) (x.qualification n) (x.gva n)
                    (λ e. ne (sym e)) le)
                (k.rings.holds i l))
      ]

  pub step-IsConsistent :
      (s t : LogState)
      → IsConsistent cpus exits s
      → LogStep cpus exits s t
      → IsConsistent cpus exits t
  step-IsConsistent s t k (LogStep.write c lt small) = record {
    rings = record {
      holds = λ i l. write-Holds s c i k lt small l;
      numbered = λ i n l. refl;
      range = λ i l. ground (arith, k.rings.range i l);
    };
    behind = λ i l. ground (arith, k.behind i l);
  }
  step-IsConsistent s t k (LogStep.dump page seq_nums e) =
      let p =
        result-Progress s.buffer cpus (λ i. history_of (exits i)) s.heads s.seq_nums seq_nums page
          k.rings k.behind e in
      record { rings = k.rings; behind = p.upper }

-- However the exits of the CPUs and the dumps of the driver are interleaved, as long as the numbers of
-- the exits fit 64 bits: if before the run every ring holds what was written to it and the driver is
-- not ahead of any, then so it is after the run.
pub run-IsConsistent :
    (cpus : ℕ) (exits : ℕ → Exits) (s t : LogState)
    → IsConsistent cpus exits s
    → LogRun cpus exits s t
    → IsConsistent cpus exits t
run-IsConsistent cpus exits s t k LogRun.at_start = k
run-IsConsistent cpus exits s t k (LogRun.next u v run step) =
    step-IsConsistent cpus exits u v (run-IsConsistent cpus exits s u k run) step
