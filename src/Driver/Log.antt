-- ===== src/Driver/Log.antt =====
-- driver/log.c: the log buffers as the driver reads them, and the text that it makes of them.
pub mod Page
pub mod Record
pub mod Parse
pub mod Text
use ikgt_usage.Base.{
  ℕ, zero, suc, ◌+◌, ◌-◌, ◌^◌, Bool, true, false, not, ◌||◌, List, [], ◌∷◌, ◌++◌, Option, none,
  some, min, ltb, leb, ◌==◌, if◌then◌else◌, length, u32, sub64,
}
use ikgt_usage.Base.Text.{codes, print_decimal, print_hex, strncpy, cut}
use ikgt_usage.PolicyCommon.{
  LogEntry, LogBuffer, page_4kb, logs_per_cpu, log_seq_num_to_index, get_cpu_log_buffer_start,
  get_last_seq_num,
}

abbrev pub max_log_record_len : ℕ
max_log_record_len = 256

abbrev pub max_sentinel_size : ℕ
max_sentinel_size = 64

abbrev pub max_ellipsis_size : ℕ
max_ellipsis_size = 4

abbrev pub max_configfs_page_size : ℕ
max_configfs_page_size = page_4kb - max_sentinel_size - max_ellipsis_size - 1

-- What has been written to the page from its start; `offset` is its length as the code counts it.
pub record PageText : Type 0 where
  pub bytes : List ℕ
  pub offset : ℕ

-- `strncpy(configfs_page + *offset, s, n); *offset += n;`
abbrev pub put : PageText → List ℕ → ℕ → PageText
put page s n = record { bytes = page.bytes ++ strncpy n s; offset = page.offset + n }

-- The page and whether it is full. `none` is BUG_ON.
unfoldable pub log_add_msg_to_configfs : PageText → List ℕ → ℕ → Option (PageText × Bool)
unfolding strncpy
log_add_msg_to_configfs page message msglen =
    let copy = min msglen (max_configfs_page_size - 1 - page.offset) in
    let page' = put page message copy in
    if leb (max_configfs_page_size - 1) page.offset
    then none
    else some (
        if not (copy == msglen)
        then (put page' (codes "...\n") (min 4 max_ellipsis_size), true)
        else (page', leb (max_configfs_page_size - 1) page'.offset))

-- The 32 bits of an int, converted to a 64-bit size.
abbrev pub as_size : ℕ → ℕ
as_size count = if ltb count (2 ^ 31) then count else count + (2 ^ 64 - 2 ^ 32)

-- `count` after the first test, for the 32 bits of the int. Beside LOGS_PER_CPU it
-- is converted to a 64-bit size, and a negative one is large.
unfoldable pub clamp_count : ℕ → ℕ
clamp_count count =
    if (count == 2 ^ 32 - 1) || ltb logs_per_cpu (as_size count) then logs_per_cpu else count

-- The index of the first entry to read.
unfoldable pub first_index : ℕ → ℕ → ℕ
first_index index count = if leb index count then logs_per_cpu - (count - index) else index - count

-- The `while (count)` loop: the entries copied, in order.
unfoldable pub read_loop : LogBuffer → ℕ → ℕ → ℕ → ℕ → List LogEntry
read_loop buffer start stop index zero = []
read_loop buffer start stop index (suc count) =
    let next : ℕ = if leb logs_per_cpu index then 1 else index + 1 in
    let rest = read_loop buffer start stop next count in
    let others : List LogEntry = if next == stop then [] else rest in
    if (buffer (start + index)).valid == 0 then others else buffer (start + index) ∷ others

-- `read_logs` on the buffer that starts at `start`
unfoldable pub read_logs : LogBuffer → ℕ → ℕ → ℕ → List LogEntry
unfolding clamp_count first_index read_loop log_seq_num_to_index
read_logs buffer start start_seq_num count =
    let index = u32 (log_seq_num_to_index start_seq_num) in
    read_loop buffer start (log_seq_num_to_index start_seq_num)
      (first_index index (clamp_count count)) (clamp_count count)

-- The text of a record, "%u,%llu,%u,%llX,%llX,%llX\n".
unfoldable pub format_record : ℕ → LogEntry → List ℕ
unfolding print_decimal print_hex
format_record cpu_index e =
    print_decimal cpu_index
    ++ (codes ","
        ++ (print_decimal e.seq_num
            ++ (codes ","
                ++ (print_decimal e.reason
                    ++ (codes ","
                        ++ (print_hex e.qualification
                            ++ (codes ","
                                ++ (print_hex e.rip
                                    ++ (codes "," ++ (print_hex e.gva ++ codes "\n"))))))))))

-- The text of the sentinel, "%u,%u,%d\nEOF\n".
unfoldable pub format_sentinel : ℕ → ℕ → Bool → List ℕ
unfolding print_decimal
format_sentinel offset num_of_logs_dumped full =
    print_decimal offset
    ++ (codes ","
        ++ (print_decimal num_of_logs_dumped
            ++ (codes "," ++ (print_decimal (if full then 1 else 0) ++ codes "\nEOF\n"))))

-- What the loops of `dump_log` update. `seq_nums` is `log_record_seq_num`.
pub record Dump : Type 0 where
  pub page : PageText
  pub full : Bool
  pub num_of_logs_dumped : ℕ
  pub seq_nums : ℕ → ℕ

abbrev pub set_seq_num : (ℕ → ℕ) → ℕ → ℕ → ℕ → ℕ
set_seq_num seq_nums cpu_index v i = if cpu_index == i then v else seq_nums i

-- What follows the copy of a record: a full page keeps the record's sequence number.
abbrev pub after_entry : ℕ → LogEntry → Dump → Option (PageText × Bool) → Option Dump
after_entry cpu_index e d none = none
after_entry cpu_index e d (some (page, true)) =
    some
      (record d { page = page; full = true; seq_nums = set_seq_num d.seq_nums cpu_index e.seq_num })
after_entry cpu_index e d (some (page, false)) =
    some
      (record d { page = page; full = false; num_of_logs_dumped = u32 (d.num_of_logs_dumped + 1) })

-- One record put on the page: `snprintf` into `sz_log_record`, which it cuts, and the copy of as many
-- bytes as the whole text has.
unfoldable pub dump_entry : ℕ → LogEntry → Dump → Option Dump
unfolding format_record cut log_add_msg_to_configfs
dump_entry cpu_index e d = after_entry cpu_index e d (
    log_add_msg_to_configfs d.page (cut (max_log_record_len - 1) (format_record cpu_index e))
      (length (format_record cpu_index e)))

-- The rest of a loop, which a full page ends.
abbrev pub unless_full : (Dump → Option Dump) → Option Dump → Option Dump
unless_full rest none = none
unless_full rest (some d) = if d.full then some d else rest d

-- The inner loop.
unfoldable pub dump_entries : ℕ → List LogEntry → Dump → Option Dump
unfolding dump_entry
dump_entries cpu_index [] d = some d
dump_entries cpu_index (e ∷ entries) d =
    unless_full (dump_entries cpu_index entries) (dump_entry cpu_index e d)

-- The body of the outer loop, for one CPU.
unfoldable pub dump_cpu : LogBuffer → ℕ → Dump → Option Dump
unfolding get_cpu_log_buffer_start get_last_seq_num read_logs dump_entries
dump_cpu buffer cpu_index d =
    let start = get_cpu_log_buffer_start cpu_index in
    let last_seq_num = get_last_seq_num buffer start in
    let num_of_logs_to_read = u32 (sub64 last_seq_num (d.seq_nums cpu_index)) in
    let d' = record d { seq_nums = set_seq_num d.seq_nums cpu_index last_seq_num } in
    if (num_of_logs_to_read == 0) || (last_seq_num == 0)
    then some d'
    else dump_entries cpu_index (read_logs buffer start last_seq_num num_of_logs_to_read) d'

-- The outer loop, for `n` CPUs from `cpu_index` on.
unfoldable pub dump_cpus : LogBuffer → ℕ → ℕ → Dump → Option Dump
unfolding dump_cpu
dump_cpus buffer zero cpu_index d = some d
dump_cpus buffer (suc n) cpu_index d =
    unless_full (dump_cpus buffer n (cpu_index + 1)) (dump_cpu buffer cpu_index d)

-- The page after the loops, with the sentinel, the new `log_record_seq_num`, and the offset that
-- `dump_log` returns.
unfoldable pub finish_dump : Dump → PageText
unfolding format_sentinel cut strncpy
finish_dump d =
    let sentinel = format_sentinel d.page.offset d.num_of_logs_dumped d.full in
    put d.page (cut (max_sentinel_size - 2) sentinel) (length sentinel)

abbrev pub empty_page : PageText
empty_page = record { bytes = []; offset = 0 }

-- `dump_log` once its two buffers are allocated, over one snapshot of the log memory: the page and
-- the new sequence numbers, or `none` for BUG_ON.
unfoldable pub dump_log : LogBuffer → ℕ → (ℕ → ℕ) → Option (PageText × (ℕ → ℕ))
unfolding dump_cpus finish_dump
dump_log buffer num_of_cpus seq_nums =
    elim (dump_cpus buffer num_of_cpus 0
      (record { page = empty_page; full = false; num_of_logs_dumped = 0; seq_nums = seq_nums })) [
        | none ↦ none
        | some d ↦ some (finish_dump d, d.seq_nums)
      ]
