-- ===== src/Ring/Reader/Dumps.antt =====
-- driver/log.c: `dump_log`, once and repeatedly, for CPUs whose buffers hold histories.
use ikgt_usage.Base.{
  ℕ, ◌+◌, ◌≤◌, ◌<◌, ◌≡◌, refl, subst, false, arith, Option, none, some, ◌⊎◌, inl, inr, Bool-cases,
}
use ikgt_usage.PolicyCommon.{LogEntry, LogBuffer, logs_per_cpu}
use ikgt_usage.Driver.Log.{
  PageText, Dump, dump_cpus, dump_log, finish_dump, format_record, empty_page,
}
use ikgt_usage.Ring.Reader.{IsShown, IsShown-Grows, Rings}
use ikgt_usage.Ring.Reader.Pass.{Behind, Sweeps, dump_cpus-Sweeps}

-- Numbers that one dump moves from `seq_nums` to `seq_nums'`: none goes back or past its head, and
-- either all are at their heads or one has gone up.
pub record Progress (cpus : ℕ) (heads seq_nums seq_nums' : ℕ → ℕ) : Type 0 where
  pub lower : (i : ℕ) → i < cpus → seq_nums i ≤ seq_nums' i
  pub upper : Behind cpus seq_nums' heads
  pub moves :
      ((i : ℕ) → i < cpus → seq_nums' i ≡ heads i)
      ⊎ ((i : ℕ) × (i < cpus) × (seq_nums i < seq_nums' i))

abbrev start_dump : (ℕ → ℕ) → Dump
start_dump seq_nums = record {
  page = empty_page;
  full = false;
  num_of_logs_dumped = 0;
  seq_nums = seq_nums;
}

module _ (cpus : ℕ) (histories : ℕ → ℕ → LogEntry) (heads : ℕ → ℕ) (seq_nums : ℕ → ℕ) where
  abbrev finish : Option Dump → Option (PageText × (ℕ → ℕ))
  finish r = elim r [ none ↦ none | some d ↦ some (finish_dump d, d.seq_nums) ]

  finish-shows :
      (r : Option Dump) (page : PageText) (seq_nums' : ℕ → ℕ)
      → Sweeps cpus histories heads 0 (start_dump seq_nums) r
      → finish r ≡ some (page, seq_nums')
      → (i s : ℕ) → i < cpus
      → heads i ≤ seq_nums i + logs_per_cpu
      → seq_nums i ≤ s
      → s < seq_nums' i
      → IsShown (format_record i (histories i s)) page.bytes
  unfolding finish_dump
  finish-shows none page seq_nums' h e i s lt near from upto = absurd cc
  finish-shows (some d) page seq_nums' h e i s lt near from upto =
      let p : finish_dump d ≡ page = cc in
      let q : seq_nums' ≡ d.seq_nums = cc in
      subst (λ (r : PageText). IsShown (format_record i (histories i s)) r.bytes) p
        (IsShown-Grows _ d.page.bytes _
          (h.shown i s (omega arith) lt near from (subst (λ f. s < f i) q upto)) (_, refl))

  finish-Progress :
      (r : Option Dump)
      → Sweeps cpus histories heads 0 (start_dump seq_nums) r
      → (page : PageText) × (seq_nums' : ℕ → ℕ) × (finish r ≡ some (page, seq_nums'))
        × Progress cpus heads seq_nums seq_nums'
  finish-Progress none h = absurd cc
  finish-Progress (some d) h = (
    finish_dump d,
    d.seq_nums,
    refl,
    record {
      lower = h.lower;
      upper = h.upper;
      moves = elim (Bool-cases d.full) [
        | inl e ↦ inr (h.first e refl)
        | inr e ↦ inl (λ i lt. h.whole e i (omega arith) lt)
      ];
    },
  )

-- If the log memory holds the history of every CPU, and no CPU has been read past its head, then
-- `dump_log` never drops a record that is still in its ring: each record between the number a CPU had
-- before the dump and the number it has after it stands, whole, on the page, as long as at most 203
-- records of that CPU were unread.
pub dump_log-shows :
    (buffer : LogBuffer) (cpus : ℕ) (histories : ℕ → ℕ → LogEntry)
    (heads seq_nums seq_nums' : ℕ → ℕ) (page : PageText) (i s : ℕ)
    → Rings buffer cpus histories heads
    → Behind cpus seq_nums heads
    → dump_log buffer cpus seq_nums ≡ some (page, seq_nums')
    → i < cpus
    → heads i ≤ seq_nums i + logs_per_cpu
    → seq_nums i ≤ s
    → s < seq_nums' i
    → IsShown (format_record i (histories i s)) page.bytes
unfolding dump_log
dump_log-shows buffer cpus histories heads seq_nums seq_nums' page i s rings behind e lt near from
      upto =
    finish-shows cpus histories heads seq_nums (dump_cpus buffer cpus 0 (start_dump seq_nums)) page
      seq_nums'
      (dump_cpus-Sweeps buffer cpus histories heads rings cpus 0 (start_dump seq_nums) (omega arith)
        behind refl (omega arith))
      e i s lt near from upto

-- If the log memory holds the history of every CPU, and no CPU has been read past its head, then
-- `dump_log` returns a page and numbers none of which went back or past its head, and either it has
-- read all CPUs to their heads or the number of some CPU has gone up.
pub dump_log-Progress :
    (buffer : LogBuffer) (cpus : ℕ) (histories : ℕ → ℕ → LogEntry) (heads seq_nums : ℕ → ℕ)
    → Rings buffer cpus histories heads
    → Behind cpus seq_nums heads
    → (page : PageText) × (seq_nums' : ℕ → ℕ) × (dump_log buffer cpus seq_nums
        ≡ some (page, seq_nums'))
      × Progress cpus heads seq_nums seq_nums'
unfolding dump_log
dump_log-Progress buffer cpus histories heads seq_nums rings behind =
    finish-Progress cpus histories heads seq_nums (dump_cpus buffer cpus 0 (start_dump seq_nums)) (
      dump_cpus-Sweeps buffer cpus histories heads rings cpus 0 (start_dump seq_nums) (omega arith)
        behind refl (omega arith))

-- The progress of a dump whose result is known.
pub result-Progress :
    (buffer : LogBuffer) (cpus : ℕ) (histories : ℕ → ℕ → LogEntry)
    (heads seq_nums seq_nums' : ℕ → ℕ) (page : PageText)
    → Rings buffer cpus histories heads
    → Behind cpus seq_nums heads
    → dump_log buffer cpus seq_nums ≡ some (page, seq_nums')
    → Progress cpus heads seq_nums seq_nums'
result-Progress buffer cpus histories heads seq_nums seq_nums' page rings behind e =
    let (page'', seq_nums'', e', p) =
      dump_log-Progress buffer cpus histories heads seq_nums rings behind in
    let same : seq_nums'' ≡ seq_nums' = cc in subst (λ f. Progress cpus heads seq_nums f) same p
