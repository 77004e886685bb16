-- ===== src/Driver/Log/Text/Loops.antt =====
-- driver/log.c: the loops of `dump_log` on a page that shows the text so far.
use ikgt_usage.Base.{
  ℕ, zero, suc, ◌+◌, ◌-◌, ◌≤◌, ◌<◌, ◌≡◌, refl, sym, ap, subst, ◌∙◌, Bool, true, false, List, [],
  ◌∷◌, ◌++◌, append_assoc, append-nil, length-append, Option, none, some, arith, ◌||◌, ◌==◌, length,
  u32, sub64, Bool-cases, inl, inr,
}
use ikgt_usage.Base.Text.{cut, strncpy}
use ikgt_usage.PolicyCommon.{LogEntry, LogBuffer, get_cpu_log_buffer_start, get_last_seq_num}
use ikgt_usage.Driver.Log.{
  PageText, empty_page, max_configfs_page_size, max_sentinel_size, Dump, set_seq_num, format_record,
  format_sentinel, read_logs, unless_full, dump_entry, dump_entries, dump_cpu, dump_cpus,
  finish_dump, dump_log,
}
use ikgt_usage.Driver.Log.Record.{EntryStep, dump_entry-EntryStep, cut_all, strncpy_all}
use ikgt_usage.Driver.Log.Page.{length-format_sentinel}
use ikgt_usage.Driver.Log.Text.{
  records_text, cpu_text, unread_text, Shows, cut_into, Filled, IsFilled, shown_open,
  unless_full-IsFilled,
}

module _ (cpu_index : ℕ) (seq_nums : ℕ → ℕ) where
  entry-IsFilled :
      (e : LogEntry) (text : List ℕ) (d : Dump)
      → d.full ≡ false
      → Filled text (cpu_index + 1) seq_nums d
      → IsFilled
          (text ++ format_record cpu_index e)
          (cpu_index + 1)
          seq_nums
          (dump_entry cpu_index e d)
  entry-IsFilled e text d f h =
      let (short, same) = shown_open (cpu_index + 1) seq_nums text d f h in
      go short same
        (dump_entry-EntryStep cpu_index e d (omega (arith, ap length same, h.counted f)))
    where
      go :
          length text < max_configfs_page_size - 1
          → d.page.bytes ≡ text
          → EntryStep cpu_index e d
          → IsFilled
              (text ++ format_record cpu_index e)
              (cpu_index + 1)
              seq_nums
              (dump_entry cpu_index e d)
      go short same (EntryStep.whole lt eq) =
          let t : List ℕ = format_record cpu_index e in
          subst (IsFilled (text ++ t) (cpu_index + 1) seq_nums) (sym eq) (record {
            counted = λ z. omega (arith, length-append d.page.bytes t, h.counted f);
            shows = (
              omega (arith, length-append text t, ap length same, h.counted f),
              ap (λ s. s ++ t) same,
            );
            later = h.later;
          })
      go short same (EntryStep.last p le filled eq) =
          let t : List ℕ = format_record cpu_index e in
          let at_end : d.page.offset ≡ length text = omega (arith, ap length same, h.counted f) in
          subst (IsFilled (text ++ t) (cpu_index + 1) seq_nums) (sym eq) (record {
            counted = λ z. absurd cc;
            shows = (
              omega (arith, length-append text t),
              (
                filled.tail,
                filled.tail_lem,
                filled.text
                    ∙ ap
                        (λ s.
                          s ++ (cut (max_configfs_page_size - 1 - d.page.offset) t ++ filled.tail))
                        same
                    ∙ ap (λ k. text ++ (cut (max_configfs_page_size - 1 - k) t ++ filled.tail))
                        at_end
                    ∙ sym (
                        append_assoc text (cut (max_configfs_page_size - 1 - length text) t)
                          filled.tail)
                    ∙ ap (λ s. s ++ filled.tail)
                        (sym (cut_into (max_configfs_page_size - 1) text t (omega arith))),
              ),
            );
            later = λ i l. ground (arith, h.later i l);
          })

  entries-IsFilled :
      (es : List LogEntry) (text : List ℕ) (d : Dump)
      → d.full ≡ false
      → Filled text (cpu_index + 1) seq_nums d
      → IsFilled
          (text ++ records_text cpu_index es)
          (cpu_index + 1)
          seq_nums
          (dump_entries cpu_index es d)
  unfolding dump_entries records_text
  entries-IsFilled [] text d f h =
      subst (λ s. Filled s (cpu_index + 1) seq_nums d) (sym (append-nil text)) h
  entries-IsFilled (e ∷ es) text d f h =
      let t : List ℕ = format_record cpu_index e in
      subst
        (λ s.
          IsFilled s (cpu_index + 1) seq_nums
            (unless_full (dump_entries cpu_index es) (dump_entry cpu_index e d)))
        (append_assoc text t (records_text cpu_index es))
        (unless_full-IsFilled (cpu_index + 1) seq_nums (dump_entries cpu_index es) (text ++ t)
          (records_text cpu_index es) (cpu_index + 1) (dump_entry cpu_index e d) (omega arith)
          (entry-IsFilled e text d f h) (λ d' f' h'. entries-IsFilled es (text ++ t) d' f' h'))

module _ (buffer : LogBuffer) (seq_nums : ℕ → ℕ) where
  cpu-IsFilled :
      (c : ℕ) (text : List ℕ) (d : Dump)
      → d.full ≡ false
      → Filled text c seq_nums d
      → IsFilled (text ++ cpu_text buffer c (seq_nums c)) (c + 1) seq_nums (dump_cpu buffer c d)
  unfolding dump_cpu cpu_text
  cpu-IsFilled c text d f h =
      let start = get_cpu_log_buffer_start c in
      let last_seq_num = get_last_seq_num buffer start in
      let unread = u32 (sub64 last_seq_num (seq_nums c)) in
      let marked : Dump = record d { seq_nums = set_seq_num d.seq_nums c last_seq_num } in
      let h' : Filled text (c + 1) seq_nums marked = record {
        counted = h.counted;
        shows = h.shows;
        later = λ i l. ground (arith, h.later i (omega arith));
      } in
      rw (h.later c (omega arith)) (elim (Bool-cases ((unread == 0) || (last_seq_num == 0))) [
        | inl e ↦ rw (e, append-nil text) h'
        | inr e ↦ rw e (
            entries-IsFilled c seq_nums (read_logs buffer start last_seq_num unread) text marked f
              h')
      ])

  cpus-IsFilled :
      (n c : ℕ) (text : List ℕ) (d : Dump)
      → d.full ≡ false
      → Filled text c seq_nums d
      → IsFilled (text ++ unread_text buffer n c seq_nums) (c + n) seq_nums (dump_cpus buffer n c d)
  unfolding dump_cpus unread_text
  cpus-IsFilled zero c text d f h =
      subst (λ s. Filled s (c + 0) seq_nums d) (sym (append-nil text))
        (record { counted = h.counted; shows = h.shows; later = λ i l. h.later i (omega arith) })
  cpus-IsFilled (suc n) c text d f h =
      let t : List ℕ = cpu_text buffer c (seq_nums c) in
      subst
        (λ s.
          IsFilled s (c + suc n) seq_nums
            (unless_full (dump_cpus buffer n (c + 1)) (dump_cpu buffer c d)))
        (append_assoc text t (unread_text buffer n (c + 1) seq_nums))
        (unless_full-IsFilled (c + 1) seq_nums (dump_cpus buffer n (c + 1)) (text ++ t)
          (unread_text buffer n (c + 1) seq_nums) (c + suc n) (dump_cpu buffer c d) (omega arith)
          (cpu-IsFilled c text d f h)
          (λ d' f' h'.
            subst
              (λ k.
                IsFilled ((text ++ t) ++ unread_text buffer n (c + 1) seq_nums) k seq_nums
                  (dump_cpus buffer n (c + 1) d'))
              (omega arith) (cpus-IsFilled n (c + 1) (text ++ t) d' f' h')))

-- A page that shows the text, followed by a sentinel.
abbrev pub IsPage : List ℕ → Option (PageText × (ℕ → ℕ)) → Type 0
IsPage text none = false ≡ true
IsPage text (some (page, seq_nums)) =
    (body : List ℕ) × (offset : ℕ) × (count : ℕ) × (full : Bool) × Shows text body full
    × (page.bytes ≡ body ++ format_sentinel offset count full)

finish-IsPage :
    (text : List ℕ) (c : ℕ) (seq_nums : ℕ → ℕ) (r : Option Dump)
    → IsFilled text c seq_nums r
    → IsPage text (elim r [ none ↦ none | some d ↦ some (finish_dump d, d.seq_nums) ])
unfolding finish_dump
finish-IsPage text c seq_nums none h = h
finish-IsPage text c seq_nums (some d) h =
    let s : List ℕ = format_sentinel d.page.offset d.num_of_logs_dumped d.full in
    let short : length s ≤ max_sentinel_size - 2 =
      omega (arith, length-format_sentinel d.page.offset d.num_of_logs_dumped d.full) in
    (
      d.page.bytes,
      d.page.offset,
      d.num_of_logs_dumped,
      d.full,
      h.shows,
      ap (λ t. d.page.bytes ++ t)
          (ap (λ t. strncpy (length s) t) (cut_all (max_sentinel_size - 2) s short)
            ∙ strncpy_all s),
    )

-- Whatever the log memory holds, `dump_log` writes the text of all unread records, CPU after CPU and in
-- the order in which `read_logs` returns them, and then a sentinel: the whole text if it is shorter than
-- 4026 bytes, and otherwise its first 4026 bytes, followed by the ellipsis or by nothing.
pub dump_log-IsPage :
    (buffer : LogBuffer) (cpus : ℕ) (seq_nums : ℕ → ℕ)
    → IsPage (unread_text buffer cpus 0 seq_nums) (dump_log buffer cpus seq_nums)
unfolding dump_log
dump_log-IsPage buffer cpus seq_nums =
    let start : Dump = record {
      page = empty_page;
      full = false;
      num_of_logs_dumped = 0;
      seq_nums = seq_nums;
    } in
    finish-IsPage (unread_text buffer cpus 0 seq_nums) (0 + cpus) seq_nums
      (dump_cpus buffer cpus 0 start)
      (cpus-IsFilled buffer seq_nums cpus 0 [] start refl
        (record { counted = λ z. refl; shows = (omega arith, refl); later = λ i l. refl }))
