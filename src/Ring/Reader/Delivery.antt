-- ===== src/Ring/Reader/Delivery.antt =====
-- handler/log.c and driver/log.c: what the pages of the dumps show of the exits.
use ikgt_usage.Base.{ℕ, ◌+◌, ◌≤◌, ◌<◌, ◌≡◌, List, [], ◌∷◌, arith, ◌⊎◌, inl, inr, true, false}
use native.Mathlib.Decide.{dec_lt}
use ikgt_usage.PolicyCommon.{logs_per_cpu}
use ikgt_usage.Driver.Log.{PageText, format_record}
use ikgt_usage.Ring.RoundTrip.{Exits, history_of}
use ikgt_usage.Ring.Reader.{IsShown}
use ikgt_usage.Ring.Reader.Dumps.{dump_log-shows}
use ikgt_usage.Ring.Reader.Interleaving.{LogState, LogStep, LogRun, IsConsistent, run-IsConsistent}

-- A text that is on one of the pages.
abbrev pub IsOnSome : List ℕ → List PageText → Type 0
IsOnSome t [] = false ≡ true
IsOnSome t (p ∷ pages) = IsShown t p.bytes ⊎ IsOnSome t pages

-- No CPU has more unread exits than its ring has records.
abbrev pub KeepsUp : ℕ → LogState → Type 0
KeepsUp cpus s = (i : ℕ) → i < cpus → s.heads i ≤ s.seq_nums i + logs_per_cpu

-- A run in which that is so in every state that it passes through.
pub data RunKeepsUp (cpus : ℕ) (exits : ℕ → Exits) (s : LogState)
    : (t : LogState) → LogRun cpus exits s t → Type 0 where
  at_start : KeepsUp cpus s → RunKeepsUp cpus exits s s LogRun.at_start
  next :
      (t u : LogState) (run : LogRun cpus exits s t) (step : LogStep cpus exits t u)
      → RunKeepsUp cpus exits s t run
      → KeepsUp cpus u
      → RunKeepsUp cpus exits s u (LogRun.next t u run step)

module _ (cpus : ℕ) (exits : ℕ → Exits) (s : LogState) where
  run-KeepsUp :
      (t : LogState) (run : LogRun cpus exits s t) → RunKeepsUp cpus exits s t run → KeepsUp cpus t
  run-KeepsUp t run (RunKeepsUp.at_start k) = k
  run-KeepsUp t run (RunKeepsUp.next u v r step before k) = k

  -- One step: what was shown stays shown, and what the driver passes is shown.
  step_shows :
      (t u : LogState) (i n : ℕ)
      → IsConsistent cpus exits t
      → KeepsUp cpus t
      → (n < t.seq_nums i → IsOnSome (format_record i (history_of (exits i) n)) t.pages)
      → i < cpus
      → LogStep cpus exits t u
      → n < u.seq_nums i
      → IsOnSome (format_record i (history_of (exits i) n)) u.pages
  step_shows t u i n k up before l (LogStep.write c lt small) below = before below
  step_shows t u i n k up before l (LogStep.dump page seq_nums e) below =
      elim (dec_lt n (t.seq_nums i)) [
        | yes lt ↦ inr (before lt)
        | no nlt ↦ inl (
            dump_log-shows t.buffer cpus (λ j. history_of (exits j)) t.heads t.seq_nums seq_nums
              page i n k.rings k.behind e l (up i l) (omega arith) below)
      ]

-- However the exits of the CPUs and the dumps of the driver are interleaved, as long as the numbers of
-- the exits fit 64 bits: if at first every ring holds what was written to it and the driver is not
-- ahead of any, and no CPU ever has more than 203 unread exits, then every exit that the driver has
-- passed since stands, whole and with its number, on one of the pages that the dumps have returned.
pub run-IsOnSome :
    (cpus : ℕ) (exits : ℕ → Exits) (s t : LogState) (run : LogRun cpus exits s t) (i n : ℕ)
    → IsConsistent cpus exits s
    → RunKeepsUp cpus exits s t run
    → i < cpus
    → s.seq_nums i ≤ n
    → n < t.seq_nums i
    → IsOnSome (format_record i (history_of (exits i) n)) t.pages
run-IsOnSome cpus exits s t run i n k (RunKeepsUp.at_start up) l from below = absurd (omega arith)
run-IsOnSome cpus exits s t run i n k (RunKeepsUp.next u v r step before up) l from below =
    step_shows cpus exits s u t i n (run-IsConsistent cpus exits s u k r)
      (run-KeepsUp cpus exits s u r before)
      (λ lt. run-IsOnSome cpus exits s u r i n k before l from lt) l step below
