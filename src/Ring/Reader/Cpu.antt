-- ===== src/Ring/Reader/Cpu.antt =====
-- driver/log.c: one round of the outer loop of `dump_log`, for a CPU whose buffer holds a history.
use ikgt_usage.Base.{
  ℕ, ◌-◌, ◌^◌, ◌≤◌, ◌<◌, ◌≡◌, refl, sym, ◌∙◌, true, false, ◌||◌, [], arith, min, Option, none, some,
  u32, sub64, ◌==◌, append-nil, Bool-cases, inl, inr,
}
use ikgt_usage.PolicyCommon.{LogEntry, LogBuffer, logs_per_cpu, get_cpu_log_buffer_start}
use ikgt_usage.Driver.Log.{Dump, PageText, dump_cpu, set_seq_num}
use ikgt_usage.Ring.{Holds}
use ikgt_usage.Ring.Read.{read_logs-Holds}
use ikgt_usage.Ring.Reader.{IsOpen, Advances, set_self, set_other}
use ikgt_usage.Ring.Reader.Entries.{dump_entries-Advances}

-- The number of the first record that is read, for a CPU that has been read up to number `k`.
abbrev pub first_read : ℕ → ℕ → ℕ
first_read k n = n - min (u32 (n - k)) logs_per_cpu

abbrev pub PageOf : PageText → Option Dump → Type 0
PageOf p none = false ≡ true
PageOf p (some d) = d.page ≡ p

module _ (buffer : LogBuffer) (cpu_index : ℕ) (history : ℕ → LogEntry) (n : ℕ) where
  abbrev marked : Dump → Dump
  marked d = record d { seq_nums = set_seq_num d.seq_nums cpu_index n }

  unread :
      (d : Dump)
      → n < 2 ^ 64
      → d.seq_nums cpu_index ≤ n
      → u32 (sub64 n (d.seq_nums cpu_index)) ≡ u32 (n - d.seq_nums cpu_index)
  unread d small le = omega arith

  from_marked :
      (k : ℕ) (d : Dump) (r : Option Dump)
      → Advances cpu_index history k n (marked d) r
      → Advances cpu_index history k n d r
  from_marked k d none a = a
  from_marked k d (some d') a = record {
    grows = a.grows;
    others = λ i ne. a.others i ne ∙ set_other d.seq_nums cpu_index n i ne;
    lower = a.lower;
    upper = a.upper;
    whole = a.whole;
    open_ = a.open_;
    shown = a.shown;
    first = a.first;
  }

  -- A CPU that has been read up to number `k`: what the round does.
  pub dump_cpu-Advances :
      (d : Dump)
      → Holds buffer (get_cpu_log_buffer_start cpu_index) history n
      → ((s : ℕ) → (history s).seq_num ≡ s)
      → n < 2 ^ 64
      → d.seq_nums cpu_index ≤ n
      → d.full ≡ false
      → IsOpen d.page
      → Advances cpu_index history
          (first_read (d.seq_nums cpu_index) n)
          n
          d
          (dump_cpu buffer cpu_index d)
  unfolding dump_cpu
  dump_cpu-Advances d h num small le f open_ =
      let k : ℕ = d.seq_nums cpu_index in
      rw (h.head, unread d small le)
        (elim (Bool-cases ((u32 (n - k) == 0) || (n == 0))) [
          | inl e ↦ rw e (record {
            grows = ([], sym (append-nil _));
            others = λ i ne. set_other d.seq_nums cpu_index n i ne;
            lower = omega (arith, set_self d.seq_nums cpu_index n);
            upper = omega (arith, set_self d.seq_nums cpu_index n);
            whole = λ z. set_self d.seq_nums cpu_index n;
            open_ = λ z. open_;
            shown = λ s low lt. absurd (ground (arith, set_self d.seq_nums cpu_index n, e));
            first = λ g z. absurd cc;
          })
          | inr e ↦
              rw
                (
                  e,
                  read_logs-Holds buffer (get_cpu_log_buffer_start cpu_index) history n
                      (u32 (n - k)) (omega arith) h,
                )
                (from_marked (first_read k n) d _ (
                  dump_entries-Advances cpu_index history n num (min (u32 (n - k)) logs_per_cpu)
                    (marked d) (omega arith) f (set_self d.seq_nums cpu_index n) open_))
        ])

  -- A CPU without unread records leaves the page as it is.
  pub dump_cpu-PageOf :
      (d : Dump)
      → Holds buffer (get_cpu_log_buffer_start cpu_index) history n
      → n < 2 ^ 64
      → d.seq_nums cpu_index ≡ n
      → PageOf d.page (dump_cpu buffer cpu_index d)
  unfolding dump_cpu
  dump_cpu-PageOf d h small e =
      let z : u32 (sub64 n (d.seq_nums cpu_index)) ≡ 0 = omega arith in rw (h.head, z) refl
