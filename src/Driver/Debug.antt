-- ===== src/Driver/Debug.antt =====
-- driver/debug.c: the sysctl `ikgt_agent_debug`, and `test_log` of driver/log.c, which it calls.
use ikgt_usage.Base.{
  ℕ, ◌+◌, ◌-◌, ◌^◌, Bool, not, ◌&&◌, ◌||◌, List, [], ◌∷◌, ◌++◌, Option, none, some, ltb, ◌==◌,
  if◌then◌else◌, length, u32, u64,
}
use ikgt_usage.Base.Text.{codes, print_decimal}
use ikgt_usage.PolicyCommon.{PolicyMessage, LogBuffer, get_cpu_log_buffer_start}
use ikgt_usage.Driver.Kernel.{Kernel, Io, pure, ◌>>=◌, ◌>>◌}
use ikgt_usage.Driver.Log.{as_size}
use ikgt_usage.Driver.Agent.{ikgt_debug}

-- `cpu_log_buffer[0].meta.test = 0x1698` for CPU 0. The 64 bits lie over the reason and the valid mark.
unfoldable pub test_log : LogBuffer → LogBuffer
unfolding get_cpu_log_buffer_start
test_log buffer i =
    if get_cpu_log_buffer_start 0 == i
    then record (buffer i) { reason = 0x1698; valid = 0 }
    else buffer i

-- `%d` of the 32 bits of an int
unfoldable pub print_int : ℕ → List ℕ
unfolding print_decimal
print_int v = if ltb v (2 ^ 31) then print_decimal v else b'-' ∷ print_decimal (2 ^ 32 - v)

-- What one access finds: the length and the offset that are passed in by pointer, whether it writes,
-- whether `copy_to_user` succeeds, what `kstrtoul_from_user` gives (an error is its code), and what
-- the 32 bytes of `buf` hold at first.
pub record Access : Type 0 where
  pub write : Bool
  pub count : ℕ
  pub ppos : ℕ
  pub copy_succeeds : Bool
  pub parsed : Option ℕ
  pub buf : List ℕ

-- What a call of `ikgt_systl_debug` returns: 0, -EFAULT, or the error of the parser.
pub data Served : Type 0 where
  served efault not_a_number : Served

-- The result, the length, the offset, the bytes copied to the user, `ikgt_agent_debug` and the log
-- memory.
pub record Reply : Type 0 where
  pub result : Served
  pub count : ℕ
  pub ppos : ℕ
  pub copied : List ℕ
  pub ikgt_agent_debug : ℕ
  pub buffer : LogBuffer

-- What `snprintf` leaves in `buf`: the text, the end mark, and the old bytes behind it.
unfoldable pub print_to : List ℕ → List ℕ → List ℕ
print_to [] [] = []
print_to [] (b ∷ buf) = 0 ∷ buf
print_to (c ∷ text) [] = []
print_to (c ∷ text) (b ∷ buf) = c ∷ print_to text buf

abbrev pub debug_text : ℕ → List ℕ
debug_text v = print_int v ++ codes "\n"

-- A reply that leaves all but the length as it was.
abbrev pub unchanged : Access → ℕ → LogBuffer → Served → ℕ → Reply
unchanged a v buffer result count = record {
  result = result;
  count = count;
  ppos = a.ppos;
  copied = [];
  ikgt_agent_debug = v;
  buffer = buffer;
}

unfoldable pub read_debug : Access → ℕ → LogBuffer → Reply
unfolding print_int print_to
read_debug a v buffer =
    if a.copy_succeeds
    then record {
      result = served;
      count = length (debug_text v);
      ppos = u64 (a.ppos + length (debug_text v));
      copied = print_to (debug_text v) a.buf;
      ikgt_agent_debug = v;
      buffer = buffer;
    }
    else unchanged a v buffer efault a.count

-- What a written number does: 1000 tests the log memory, and every other one goes to the handler.
unfoldable pub run_debug : Kernel → PolicyMessage → ℕ → LogBuffer → Io LogBuffer
unfolding test_log ikgt_debug
run_debug kernel rest val buffer =
    if val == 1000 then pure (test_log buffer) else (do ikgt_debug kernel rest val; pure buffer)

-- `len` is the int that the length is cut to.
unfoldable pub write_debug : Kernel → PolicyMessage → Access → ℕ → LogBuffer → Io Reply
unfolding run_debug
write_debug kernel rest a v buffer = elim a.parsed [
  | none ↦ pure (unchanged a v buffer not_a_number a.count)
  | some val ↦ do
    buffer' ← run_debug kernel rest val buffer
    pure (record {
      result = served;
      count = as_size (u32 a.count);
      ppos = u64 (a.ppos + as_size (u32 a.count));
      copied = [];
      ikgt_agent_debug = u32 val;
      buffer = buffer';
    })
]

unfoldable pub ikgt_systl_debug : Kernel → PolicyMessage → Access → ℕ → LogBuffer → Io Reply
unfolding read_debug write_debug
ikgt_systl_debug kernel rest a v buffer =
    if (a.count == 0) || (not (a.ppos == 0) && not a.write)
    then pure (unchanged a v buffer served 0)
    else if not a.write
    then pure (read_debug a v buffer)
    else write_debug kernel rest a v buffer
