-- ===== src/Driver/Log/Text.antt =====
-- driver/log.c: the text of the page against the text of all unread records.
pub mod Loops
use ikgt_usage.Base.{
  ℕ, zero, suc, ◌+◌, ◌-◌, ◌≤◌, ◌<◌, ◌≡◌, refl, sym, ap, subst, ◌∙◌, Bool, true, false, List, [],
  ◌∷◌, ◌++◌, append_assoc, append-nil, length-append, Option, none, some, arith, ◌⊎◌, ◌||◌, ◌==◌,
  if◌then◌else◌, length, u32, sub64, Bool-cases, inl, inr,
}
use ikgt_usage.Base.Text.{codes, cut, strncpy}
use ikgt_usage.PolicyCommon.{LogEntry, LogBuffer, get_cpu_log_buffer_start, get_last_seq_num}
use ikgt_usage.Driver.Log.{
  PageText, empty_page, max_configfs_page_size, max_sentinel_size, Dump, set_seq_num, format_record,
  format_sentinel, read_logs, unless_full, dump_entry, dump_entries, dump_cpu, dump_cpus,
  finish_dump, dump_log,
}
use ikgt_usage.Driver.Log.Record.{EntryStep, dump_entry-EntryStep, cut_all, strncpy_all}
use ikgt_usage.Driver.Log.Page.{length-format_sentinel}

-- The text of records of one CPU, of the unread records of one CPU that `read_logs` returns, and of those
-- of `n` CPUs from `c` on.
unfoldable pub records_text : ℕ → List LogEntry → List ℕ
unfolding format_record
records_text cpu_index [] = []
records_text cpu_index (e ∷ es) = format_record cpu_index e ++ records_text cpu_index es

unfoldable pub cpu_text : LogBuffer → ℕ → ℕ → List ℕ
unfolding records_text read_logs get_cpu_log_buffer_start get_last_seq_num
cpu_text buffer cpu_index seq_num =
    let start = get_cpu_log_buffer_start cpu_index in
    let last_seq_num = get_last_seq_num buffer start in
    let unread = u32 (sub64 last_seq_num seq_num) in
    if (unread == 0) || (last_seq_num == 0)
    then []
    else records_text cpu_index (read_logs buffer start last_seq_num unread)

unfoldable pub unread_text : LogBuffer → ℕ → ℕ → (ℕ → ℕ) → List ℕ
unfolding cpu_text
unread_text buffer zero c seq_nums = []
unread_text buffer (suc n) c seq_nums =
    cpu_text buffer c (seq_nums c) ++ unread_text buffer n (c + 1) seq_nums

-- What stands on the page before the sentinel: the whole text if there is room, and the first 4026 bytes
-- of it, followed by the ellipsis or nothing, if there is not.
abbrev pub Shows : List ℕ → List ℕ → Bool → Type 0
Shows text body false = (length text < max_configfs_page_size - 1) × (body ≡ text)
Shows text body true =
    (max_configfs_page_size - 1 ≤ length text)
    × ((tail : List ℕ) × ((tail ≡ []) ⊎ (tail ≡ codes "...\n"))
        × (body ≡ cut (max_configfs_page_size - 1) text ++ tail))

cut_past : (n : ℕ) (s t : List ℕ) → n ≤ length s → cut n (s ++ t) ≡ cut n s
unfolding cut
cut_past zero s t h = refl
cut_past (suc n) [] t h = absurd (omega arith)
cut_past (suc n) (c ∷ s) t h = ap (λ r. c ∷ r) (cut_past n s t (omega arith))

pub cut_into : (n : ℕ) (s t : List ℕ) → length s ≤ n → cut n (s ++ t) ≡ s ++ cut (n - length s) t
unfolding cut
cut_into n [] t h = ap (λ k. cut k t) (omega arith)
cut_into zero (c ∷ s) t h = absurd (omega arith)
cut_into (suc n) (c ∷ s) t h =
    ap (λ r. c ∷ r) (cut_into n s t (omega arith) ∙ ap (λ k. s ++ cut k t) (omega arith))

-- More text changes nothing on a full page.
Shows-more : (text more body : List ℕ) → Shows text body true → Shows (text ++ more) body true
Shows-more text more body (le, rest) =
    let (tail, t, e) = rest in
    (
      omega (arith, length-append text more),
      (tail, t, e ∙ ap (λ s. s ++ tail) (sym (cut_past (max_configfs_page_size - 1) text more le))),
    )

-- A dump whose page counts its bytes and shows the text, and which has not touched the numbers of the
-- CPUs from `c` on.
pub record Filled (text : List ℕ) (c : ℕ) (seq_nums : ℕ → ℕ) (d : Dump) : Type 0 where
  pub counted : d.full ≡ false → length d.page.bytes ≡ d.page.offset
  pub shows : Shows text d.page.bytes d.full
  pub later : (i : ℕ) → c ≤ i → d.seq_nums i ≡ seq_nums i

abbrev pub IsFilled : List ℕ → ℕ → (ℕ → ℕ) → Option Dump → Type 0
IsFilled text c seq_nums none = false ≡ true
IsFilled text c seq_nums (some d) = Filled text c seq_nums d

module _ (c : ℕ) (seq_nums : ℕ → ℕ) where
  pub shown_open :
      (text : List ℕ) (d : Dump)
      → d.full ≡ false
      → Filled text c seq_nums d
      → Shows text d.page.bytes false
  shown_open text d f h = subst (Shows text d.page.bytes) f h.shows

  -- The rest of a loop adds more text, unless the page is full.
  pub unless_full-IsFilled :
      (rest : Dump → Option Dump) (text more : List ℕ) (c' : ℕ) (r : Option Dump)
      → c ≤ c'
      → IsFilled text c seq_nums r
      → ((d : Dump)
          → d.full ≡ false
          → Filled text c seq_nums d
          → IsFilled (text ++ more) c' seq_nums (rest d))
      → IsFilled (text ++ more) c' seq_nums (unless_full rest r)
  unless_full-IsFilled rest text more c' none le h k = h
  unless_full-IsFilled rest text more c' (some d) le h k = elim (Bool-cases d.full) [
    | inl e ↦ simp e (record {
      counted = λ z. absurd cc;
      shows =
          subst (Shows (text ++ more) d.page.bytes) (sym e)
            (Shows-more text more d.page.bytes (subst (Shows text d.page.bytes) e h.shows));
      later = λ i l. h.later i (omega arith);
    })
    | inr e ↦ simp e (k d e h)
  ]
