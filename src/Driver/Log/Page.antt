-- ===== src/Driver/Log/Page.antt =====
-- driver/log.c: the length of the page that `dump_log` fills.
use ikgt_usage.Base.{
  ℕ, zero, suc, ◌+◌, ◌-◌, ◌/◌, ◌%◌, if◌then◌else◌, u32, sub64, ◌||◌, ◌≤◌, ◌<◌, ◌≡◌, refl, ap, Bool,
  true, false, List, [], ◌∷◌, ◌++◌, Option, none, some, arith, subst, Bool-cases, inl, inr, min,
  if_both, length, length-append, leb, not, ◌==◌,
}
use ikgt_usage.Base.Text.{strncpy, cut, codes, digit_char, print_digits, print_decimal}
use ikgt_usage.PolicyCommon.{
  LogBuffer, LogEntry, page_4kb, get_cpu_log_buffer_start, get_last_seq_num,
}
use ikgt_usage.Driver.Log.{
  PageText, empty_page, read_logs, set_seq_num, put, log_add_msg_to_configfs,
  max_configfs_page_size, Dump, after_entry, unless_full, dump_entry, dump_entries, dump_cpu,
  dump_cpus, dump_log, finish_dump, format_record, format_sentinel, max_log_record_len,
  max_sentinel_size,
}

-- A page whose offset counts its bytes.
abbrev IsCounted : PageText → Type 0
IsCounted p = length p.bytes ≡ p.offset

length-strncpy : (n : ℕ) (s : List ℕ) → length (strncpy n s) ≡ n
unfolding strncpy
length-strncpy zero s = refl
length-strncpy (suc n) [] = ap suc (length-strncpy n [])
length-strncpy (suc n) (c ∷ s) = ap suc (length-strncpy n s)

length-put : (p : PageText) (s : List ℕ) (n : ℕ) → IsCounted p → IsCounted (put p s n)
length-put p s n c = omega (arith, length-append p.bytes (strncpy n s), length-strncpy n s, c)

-- A page between two records: over the limit by the ellipsis at most, and below it unless it is full.
record Fits (p : PageText) (full : Bool) : Type 0 where
  counted : IsCounted p
  room : full ≡ false → p.offset < max_configfs_page_size - 1
  limit : p.offset ≤ max_configfs_page_size + 3

abbrev AddFits : Option (PageText × Bool) → Type 0
AddFits none = false ≡ true
AddFits (some (p, full)) = Fits p full

add-Fits :
    (p : PageText) (message : List ℕ) (n : ℕ)
    → Fits p false
    → AddFits (log_add_msg_to_configfs p message n)
unfolding log_add_msg_to_configfs
add-Fits p message n f =
    let open_ : leb (max_configfs_page_size - 1) p.offset ≡ false = ground (arith, f.room refl) in
    let copy : ℕ = min n (max_configfs_page_size - 1 - p.offset) in
    let page' : PageText = put p message copy in
    let c : IsCounted page' = length-put p message copy f.counted in
    rw open_ (
      if_both (λ r. AddFits (some r)) (not (copy == n)) _ _
        (record {
          counted = length-put page' (codes "...\n") 4 c;
          room = λ h. cc;
          limit = omega (arith, f.room refl);
        })
        (record { counted = c; room = λ h. ground (arith, h); limit = omega (arith, f.room refl) }))

abbrev DumpFits : Option Dump → Type 0
DumpFits none = false ≡ true
DumpFits (some d) = Fits d.page d.full

dump_entry-Fits :
    (cpu_index : ℕ) (e : LogEntry) (d : Dump)
    → Fits d.page false
    → DumpFits (dump_entry cpu_index e d)
unfolding dump_entry
dump_entry-Fits cpu_index e d f =
    go
      (log_add_msg_to_configfs d.page (cut (max_log_record_len - 1) (format_record cpu_index e))
        (length (format_record cpu_index e)))
      (add-Fits d.page (cut (max_log_record_len - 1) (format_record cpu_index e))
        (length (format_record cpu_index e)) f)
  where
    go : (r : Option (PageText × Bool)) → AddFits r → DumpFits (after_entry cpu_index e d r)
    go none h = h
    go (some (p, true)) h = h
    go (some (p, false)) h = h

unless_full-Fits :
    (rest : Dump → Option Dump) (r : Option Dump)
    → ((d : Dump) → Fits d.page d.full → d.full ≡ false → DumpFits (rest d))
    → DumpFits r
    → DumpFits (unless_full rest r)
unless_full-Fits rest none k h = h
unless_full-Fits rest (some d) k h = elim (Bool-cases d.full) [
  | inl e ↦ simp e (subst (Fits d.page) e h)
  | inr e ↦ simp e (k d h e)
]

dump_entries-Fits :
    (cpu_index : ℕ) (es : List LogEntry) (d : Dump)
    → Fits d.page d.full
    → d.full ≡ false
    → DumpFits (dump_entries cpu_index es d)
unfolding dump_entries
dump_entries-Fits cpu_index [] d f e = f
dump_entries-Fits cpu_index (x ∷ es) d f e =
    unless_full-Fits (dump_entries cpu_index es) (dump_entry cpu_index x d)
      (λ d' f' e'. dump_entries-Fits cpu_index es d' f' e')
      (dump_entry-Fits cpu_index x d (subst (Fits d.page) e f))

dump_cpu-Fits :
    (buffer : LogBuffer) (cpu_index : ℕ) (d : Dump)
    → Fits d.page d.full
    → d.full ≡ false
    → DumpFits (dump_cpu buffer cpu_index d)
unfolding dump_cpu
dump_cpu-Fits buffer cpu_index d f e =
    let start = get_cpu_log_buffer_start cpu_index in
    let last_seq_num = get_last_seq_num buffer start in
    let unread = u32 (sub64 last_seq_num (d.seq_nums cpu_index)) in
    let entries = read_logs buffer start last_seq_num unread in
    let d' : Dump = record d { seq_nums = set_seq_num d.seq_nums cpu_index last_seq_num } in
    if_both DumpFits ((unread == 0) || (last_seq_num == 0)) (some d')
      (dump_entries cpu_index entries d') f (dump_entries-Fits cpu_index entries d' f e)

dump_cpus-Fits :
    (buffer : LogBuffer) (n cpu_index : ℕ) (d : Dump)
    → Fits d.page d.full
    → d.full ≡ false
    → DumpFits (dump_cpus buffer n cpu_index d)
unfolding dump_cpus
dump_cpus-Fits buffer zero cpu_index d f e = f
dump_cpus-Fits buffer (suc n) cpu_index d f e =
    unless_full-Fits (dump_cpus buffer n (cpu_index + 1)) (dump_cpu buffer cpu_index d)
      (λ d' f' e'. dump_cpus-Fits buffer n (cpu_index + 1) d' f' e')
      (dump_cpu-Fits buffer cpu_index d f e)

pub length-print_digits :
    (fuel radix n : ℕ) (rest : List ℕ)
    → length (print_digits fuel radix n rest) ≤ fuel + length rest
unfolding print_digits
length-print_digits zero radix n rest = omega arith
length-print_digits (suc fuel) radix n rest =
    if_both (λ s. length s ≤ suc fuel + length rest) (n / radix == 0)
      (digit_char (n % radix) ∷ rest)
      (print_digits fuel radix (n / radix) (digit_char (n % radix) ∷ rest)) (omega arith)
      (omega (arith, length-print_digits fuel radix (n / radix) (digit_char (n % radix) ∷ rest)))

pub length-print_decimal : (n : ℕ) → length (print_decimal n) ≤ 20
unfolding print_decimal
length-print_decimal n = length-print_digits 20 10 n []

length-flag : (full : Bool) → length (print_decimal (if full then 1 else 0)) ≡ 1
unfolding print_decimal print_digits digit_char
length-flag true = refl
length-flag false = refl

pub length-format_sentinel : (a b : ℕ) (full : Bool) → length (format_sentinel a b full) ≤ 48
unfolding format_sentinel
length-format_sentinel a b full = omega (
  arith,
  length-append (print_decimal a) (
      codes ","
      ++ (print_decimal b
          ++ (codes "," ++ (print_decimal (if full then 1 else 0) ++ codes "\nEOF\n")))),
  length-append (print_decimal b)
      (codes "," ++ (print_decimal (if full then 1 else 0) ++ codes "\nEOF\n")),
  length-append (print_decimal (if full then 1 else 0)) (codes "\nEOF\n"),
  length-print_decimal a,
  length-print_decimal b,
  length-flag full,
)

-- A result of `dump_log` whose page is within its 4096 bytes.
abbrev pub PageFits : Option (PageText × (ℕ → ℕ)) → Type 0
PageFits none = false ≡ true
PageFits (some (p, seq_nums)) = IsCounted p × (p.offset ≤ page_4kb)

finish-PageFits :
    (r : Option Dump)
    → DumpFits r
    → PageFits (elim r [ none ↦ none | some d ↦ some (finish_dump d, d.seq_nums) ])
unfolding finish_dump
finish-PageFits none h = h
finish-PageFits (some d) h =
    let sentinel = format_sentinel d.page.offset d.num_of_logs_dumped d.full in
    (
      length-put d.page (cut (max_sentinel_size - 2) sentinel) (length sentinel) h.counted,
      omega (arith, h.limit, length-format_sentinel d.page.offset d.num_of_logs_dumped d.full),
    )

-- Whatever the log memory holds, for every number of CPUs, `dump_log` gives a page: BUG_ON is never
-- reached, the returned offset is the number of bytes written, and it is at most 4096.
pub dump_log-PageFits :
    (buffer : LogBuffer) (cpus : ℕ) (seq_nums : ℕ → ℕ) → PageFits (dump_log buffer cpus seq_nums)
unfolding dump_log
dump_log-PageFits buffer cpus seq_nums =
    let start : Dump = record {
      page = empty_page;
      full = false;
      num_of_logs_dumped = 0;
      seq_nums = seq_nums;
    } in
    finish-PageFits (dump_cpus buffer cpus 0 start) (
      dump_cpus-Fits buffer cpus 0 start
        (record { counted = refl; room = λ h. omega arith; limit = omega arith }) refl)
