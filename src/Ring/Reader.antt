-- ===== src/Ring/Reader.antt =====
-- driver/log.c: `dump_log` on buffers that hold the histories of the CPUs.
pub mod Entries
pub mod Cpu
pub mod Pass
pub mod Dumps
pub mod Repeat
pub mod Interleaving
pub mod Delivery
pub mod Start
use ikgt_usage.Base.{
  ℕ, ◌+◌, ◌-◌, ◌^◌, ◌≤◌, ◌<◌, ◌≡◌, ◌≢◌, Bool, true, false, List, ◌++◌, Option, none, some,
  append_assoc, ap, ◌∙◌, arith,
}
use ikgt_usage.PolicyCommon.{LogEntry, LogBuffer, logs_per_cpu, get_cpu_log_buffer_start}
use ikgt_usage.Driver.Log.{PageText, Dump, set_seq_num, max_configfs_page_size, format_record}
use ikgt_usage.Ring.{Holds}

pub set_self : (f : ℕ → ℕ) (i v : ℕ) → set_seq_num f i v i ≡ v
set_self f i v = ground arith

pub set_other : (f : ℕ → ℕ) (i v j : ℕ) → j ≢ i → set_seq_num f i v j ≡ f j
set_other f i v j ne = ground arith

-- A page that has room for more.
abbrev pub IsOpen : PageText → Type 0
IsOpen p = p.offset < max_configfs_page_size - 1

-- A text that is on a page.
abbrev pub IsShown : List ℕ → List ℕ → Type 0
IsShown t bytes = (before : List ℕ) × (after : List ℕ) × (bytes ≡ before ++ (t ++ after))

-- A page that another one begins with.
abbrev pub Grows : List ℕ → List ℕ → Type 0
Grows bytes bytes' = (more : List ℕ) × (bytes' ≡ bytes ++ more)

pub IsShown-Grows :
    (t bytes bytes' : List ℕ) → IsShown t bytes → Grows bytes bytes' → IsShown t bytes'
IsShown-Grows t bytes bytes' (before, after, e) (more, e') = (
  before,
  after ++ more,
  e'
      ∙ ap (λ s. s ++ more) e
      ∙ append_assoc before (t ++ after) more
      ∙ ap (λ s. before ++ s) (append_assoc t after more),
)

pub Grows-trans : (a b c : List ℕ) → Grows a b → Grows b c → Grows a c
Grows-trans a b c (more, e) (more', e') =
    (more ++ more', e' ∙ ap (λ s. s ++ more') e ∙ append_assoc a more more')

-- What the records of one CPU from number `low` up to `n` do to a dump whose number for the CPU is `n`.
pub record Advance (cpu_index : ℕ) (history : ℕ → LogEntry) (low n : ℕ) (d d' : Dump) : Type 0 where
  pub grows : Grows d.page.bytes d'.page.bytes
  pub others : (i : ℕ) → i ≢ cpu_index → d'.seq_nums i ≡ d.seq_nums i
  pub lower : low ≤ d'.seq_nums cpu_index
  pub upper : d'.seq_nums cpu_index ≤ n
  pub whole : d'.full ≡ false → d'.seq_nums cpu_index ≡ n
  pub open_ : d'.full ≡ false → IsOpen d'.page
  pub shown :
      (s : ℕ)
      → low ≤ s
      → s < d'.seq_nums cpu_index
      → IsShown (format_record cpu_index (history s)) d'.page.bytes
  pub first : d'.full ≡ true → d.page.offset ≡ 0 → low < d'.seq_nums cpu_index

abbrev pub Advances : ℕ → (ℕ → LogEntry) → ℕ → ℕ → Dump → Option Dump → Type 0
Advances cpu_index history low n d none = false ≡ true
Advances cpu_index history low n d (some d') = Advance cpu_index history low n d d'

-- The log memory holds, for every CPU below `cpus`, a history of `head i` records with their numbers.
pub record Rings (buffer : LogBuffer) (cpus : ℕ) (histories : ℕ → ℕ → LogEntry) (heads : ℕ → ℕ)
    : Type 0 where
  pub holds : (i : ℕ) → i < cpus → Holds buffer (get_cpu_log_buffer_start i) (histories i) (heads i)
  pub numbered : (i s : ℕ) → i < cpus → (histories i s).seq_num ≡ s
  pub range : (i : ℕ) → i < cpus → heads i < 2 ^ 64
