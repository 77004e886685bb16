-- ===== src/Tests/Reader.antt =====
-- Exits of two CPUs and the dumps of them.
use ikgt_usage.Base.{ℕ, ◌+◌, none, [], ◌∷◌, ◌≡◌, ◌≤◌, ◌<◌, refl, some, arith}
use ikgt_usage.Handler.Log.{log_buffer_add_record}
use ikgt_usage.Driver.Log.{PageText, empty_page, dump_log, format_record}
use ikgt_usage.Driver.Log.Text.{unread_text}
use ikgt_usage.Driver.Log.Text.Loops.{IsPage, dump_log-IsPage}
use ikgt_usage.PolicyCommon.{get_last_seq_num}
use ikgt_usage.Ring.RoundTrip.{Exits, history_of}
use ikgt_usage.Ring.Reader.Repeat.{dumps, unread, dumps_catch_up}
use ikgt_usage.Ring.Reader.Interleaving.{
  LogState, LogStep, LogRun, IsConsistent, count_exit, write_exit, run-IsConsistent,
  cleared-IsConsistent,
}
use ikgt_usage.Ring.Reader.Delivery.{IsOnSome, RunKeepsUp, run-IsOnSome}
use ikgt_usage.Tests.{cleared}

abbrev exits : ℕ → Exits
exits c = record { rip = λ n. 0x1000 + n; reason = λ n. 28; qualification = λ n. c; gva = λ n. 0 }

abbrev first_state : LogState
first_state = record { buffer = cleared; seq_nums = λ i. 0; heads = λ i. 0; pages = [] }

abbrev after_write : ℕ → LogState → LogState
after_write c s = record {
  buffer = write_exit s.buffer c (exits c) (s.heads c);
  seq_nums = s.seq_nums;
  heads = count_exit s.heads c;
  pages = s.pages;
}

-- An exit on each of two CPUs.
abbrev two_written : LogState
two_written = after_write 1 (after_write 0 first_state)

abbrev two_writes : LogRun 2 exits first_state two_written
two_writes =
    LogRun.next (after_write 0 first_state) two_written
      (LogRun.next first_state (after_write 0 first_state) LogRun.at_start
        (LogStep.write 0 (omega arith) (omega arith)))
      (LogStep.write 1 (omega arith) (omega arith))

first_state-IsConsistent : IsConsistent 2 exits first_state
unfolding get_last_seq_num
first_state-IsConsistent = cleared-IsConsistent 2 exits cleared (λ i. refl) (λ j. refl)

two_written-IsConsistent : IsConsistent 2 exits two_written
two_written-IsConsistent =
    run-IsConsistent 2 exits first_state two_written first_state-IsConsistent two_writes

run-IsConsistent_example : IsConsistent 2 exits two_written
run-IsConsistent_example =
    run-IsConsistent 2 exits first_state two_written first_state-IsConsistent two_writes

few_unread : unread 2 two_written.heads (λ i. 0) ≤ 2
unfolding unread
few_unread = omega arith

dumps_catch_up_example :
    (seq_nums' : ℕ → ℕ) × (dumps two_written.buffer 2 2 (λ i. 0) ≡ some seq_nums')
    × ((i : ℕ) → i < 2 → seq_nums' i ≡ two_written.heads i)
dumps_catch_up_example =
    dumps_catch_up two_written.buffer 2 (λ i. history_of (exits i)) two_written.heads
      two_written-IsConsistent.rings 2 (λ i. 0) (λ i l. omega arith) few_unread

unfoldable dumped : PageText × (ℕ → ℕ)
dumped = elim (dump_log two_written.buffer 2 two_written.seq_nums) [
  | none ↦ (empty_page, two_written.seq_nums)
  | some r ↦ r
]

dumped_lem : dump_log two_written.buffer 2 two_written.seq_nums ≡ some (dumped.0, dumped.1)
unfolding dump_log dumped log_buffer_add_record
dumped_lem = refl

abbrev two_dumped : LogState
two_dumped = record two_written { seq_nums = dumped.1; pages = dumped.0 ∷ [] }

abbrev writes_and_dump : LogRun 2 exits first_state two_dumped
writes_and_dump =
    LogRun.next two_written two_dumped two_writes (LogStep.dump dumped.0 dumped.1 dumped_lem)

keeping_up : RunKeepsUp 2 exits first_state two_dumped writes_and_dump
keeping_up =
    RunKeepsUp.next _ _ _ _
      (RunKeepsUp.next _ _ _ _
        (RunKeepsUp.next _ _ _ _ (RunKeepsUp.at_start (λ i l. ground arith)) (λ i l. ground arith))
        (λ i l. ground arith))
      (λ i l. ground arith)

passed : 0 < dumped.1 1
unfolding dump_log dumped log_buffer_add_record
passed = omega arith

run-IsOnSome_example : IsOnSome (format_record 1 (history_of (exits 1) 0)) two_dumped.pages
run-IsOnSome_example =
    run-IsOnSome 2 exits first_state two_dumped writes_and_dump 1 0 first_state-IsConsistent
      keeping_up (omega arith) (omega arith) passed

dump_log-IsPage_example :
    IsPage
      (unread_text two_written.buffer 2 0 two_written.seq_nums)
      (dump_log two_written.buffer 2 two_written.seq_nums)
dump_log-IsPage_example = dump_log-IsPage two_written.buffer 2 two_written.seq_nums
