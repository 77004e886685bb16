-- ===== src/Ring/Reader/Entries.antt =====
-- driver/log.c: the inner loop of `dump_log`, on the last records of a history.
use ikgt_usage.Base.{
  ℕ, zero, suc, ◌+◌, ◌-◌, ◌≤◌, ◌≡◌, refl, sym, ap, subst, false, [], ◌∷◌, ◌++◌, append-nil, ◌∙◌,
  arith, Option, none, some, u32,
}
use native.Mathlib.Decide.{ℕ_discrete}
use ikgt_usage.PolicyCommon.{LogEntry}
use ikgt_usage.Driver.Log.{Dump, dump_entry, dump_entries, format_record, unless_full}
use ikgt_usage.Driver.Log.Record.{EntryStep, dump_entry-EntryStep, length-format_record, with_text}
use ikgt_usage.Ring.{recent}
use ikgt_usage.Ring.Reader.{IsOpen, IsShown-Grows, Grows-trans, set_self, set_other, Advances}

recent-suc :
    (history : ℕ → LogEntry) (n k : ℕ)
    → suc k ≤ n
    → recent history n (suc k) ≡ history (n - suc k) ∷ recent history n k
unfolding recent
recent-suc history n k h = ground (arith, h)

module _ (cpu_index : ℕ) (history : ℕ → LogEntry) (n : ℕ)
    (num : (s : ℕ) → (history s).seq_num ≡ s) where
  step :
      (k : ℕ) (d : Dump)
      → suc k ≤ n
      → d.seq_nums cpu_index ≡ n
      → IsOpen d.page
      → ((d' : Dump)
          → d'.full ≡ false
          → d'.seq_nums cpu_index ≡ n
          → IsOpen d'.page
          → Advances cpu_index history
              (n - k)
              n
              d'
              (dump_entries cpu_index (recent history n k) d'))
      → EntryStep cpu_index (history (n - suc k)) d
      → Advances cpu_index history (n - suc k) n d (
          unless_full
            (dump_entries cpu_index (recent history n k))
            (dump_entry cpu_index (history (n - suc k)) d))
  step k d le e open_ rest (EntryStep.whole lt h) =
      let d1 : Dump = record d {
        page = with_text d.page (format_record cpu_index (history (n - suc k)));
        full = false;
        num_of_logs_dumped = u32 (d.num_of_logs_dumped + 1);
      } in
      subst
        (λ r.
          Advances cpu_index history (n - suc k) n d
            (unless_full (dump_entries cpu_index (recent history n k)) r))
        (sym h) (after (dump_entries cpu_index (recent history n k) d1) (rest d1 refl e lt))
    where
      after :
          (r : Option Dump)
          → Advances cpu_index history
              (n - k)
              n
              (record d {
                page = with_text d.page (format_record cpu_index (history (n - suc k)));
                full = false;
                num_of_logs_dumped = u32 (d.num_of_logs_dumped + 1);
              })
              r
          → Advances cpu_index history (n - suc k) n d r
      after none a = a
      after (some d') a = record {
        grows =
            Grows-trans d.page.bytes (d.page.bytes ++ format_record cpu_index (history (n - suc k)))
              d'.page.bytes (format_record cpu_index (history (n - suc k)), refl) a.grows;
        others = a.others;
        lower = omega (arith, a.lower);
        upper = a.upper;
        whole = a.whole;
        open_ = a.open_;
        shown = λ s low lt. elim (ℕ_discrete s (n - suc k)) [
          | yes p ↦
              IsShown-Grows _ (d.page.bytes ++ format_record cpu_index (history (n - suc k)))
                d'.page.bytes
                (
                  d.page.bytes,
                  [],
                  ap (λ t. d.page.bytes ++ t)
                      (ap (λ i. format_record cpu_index (history i)) (sym p) ∙ sym (append-nil _)),
                )
                a.grows
          | no np ↦ a.shown s (omega arith) lt
        ];
        first = λ f z. omega (arith, a.lower);
      }
  step k d le e open_ rest (EntryStep.last p over f h) =
      subst
        (λ r.
          Advances cpu_index history (n - suc k) n d
            (unless_full (dump_entries cpu_index (recent history n k)) r))
        (sym h)
        (record {
          grows = (_, f.text);
          others = λ i ne. set_other d.seq_nums cpu_index (history (n - suc k)).seq_num i ne;
          lower =
              omega (
                arith,
                num (n - suc k),
                set_self d.seq_nums cpu_index (history (n - suc k)).seq_num,
              );
          upper =
              omega (
                arith,
                num (n - suc k),
                set_self d.seq_nums cpu_index (history (n - suc k)).seq_num,
              );
          whole = λ z. absurd cc;
          open_ = λ z. absurd cc;
          shown = λ s low lt. absurd (
              omega (
                arith,
                num (n - suc k),
                set_self d.seq_nums cpu_index (history (n - suc k)).seq_num,
              ));
          first =
              λ z z'. absurd (omega (arith, length-format_record cpu_index (history (n - suc k))));
        })

  pub dump_entries-Advances :
      (k : ℕ) (d : Dump)
      → k ≤ n
      → d.full ≡ false
      → d.seq_nums cpu_index ≡ n
      → IsOpen d.page
      → Advances cpu_index history (n - k) n d (dump_entries cpu_index (recent history n k) d)
  unfolding dump_entries
  dump_entries-Advances zero d le f e open_ =
      unfold recent in
      record {
        grows = ([], sym (append-nil _));
        others = λ i ne. refl;
        lower = omega arith;
        upper = omega arith;
        whole = λ z. e;
        open_ = λ z. open_;
        shown = λ s low lt. absurd (omega arith);
        first = λ g z. absurd cc;
      }
  dump_entries-Advances (suc k) d le f e open_ = rw (recent-suc history n k le) (
      step k d le e open_ (λ d' f' e' o'. dump_entries-Advances k d' (omega arith) f' e' o')
        (dump_entry-EntryStep cpu_index (history (n - suc k)) d open_))
