-- ===== src/Ring/Reader/Repeat.antt =====
-- driver/log.c: `dump_log` called again and again while no record is written.
use ikgt_usage.Base.{
  ℕ, zero, suc, ◌+◌, ◌-◌, ◌≤◌, ◌<◌, ◌≡◌, refl, sym, subst, arith, Option, none, some, inl, inr,
}
use native.Mathlib.Decide.{ℕ_discrete}
use ikgt_usage.PolicyCommon.{LogEntry, LogBuffer}
use ikgt_usage.Driver.Log.{dump_log}
use ikgt_usage.Ring.Reader.{Rings}
use ikgt_usage.Ring.Reader.Pass.{Behind}
use ikgt_usage.Ring.Reader.Dumps.{dump_log-Progress}

-- The numbers after `m` dumps.
unfoldable pub dumps : LogBuffer → ℕ → ℕ → (ℕ → ℕ) → Option (ℕ → ℕ)
unfolding dump_log
dumps buffer cpus zero seq_nums = some seq_nums
dumps buffer cpus (suc m) seq_nums = elim (dump_log buffer cpus seq_nums) [
  | none ↦ none
  | some r ↦ (let (page, seq_nums') = r in dumps buffer cpus m seq_nums')
]

-- The number of unread records of the CPUs below `cpus`.
unfoldable pub unread : ℕ → (ℕ → ℕ) → (ℕ → ℕ) → ℕ
unread zero heads seq_nums = 0
unread (suc n) heads seq_nums = unread n heads seq_nums + (heads n - seq_nums n)

module _ (heads f g : ℕ → ℕ) where
  unread_le :
      (cpus : ℕ) → ((i : ℕ) → i < cpus → f i ≤ g i) → unread cpus heads g ≤ unread cpus heads f
  unfolding unread
  unread_le zero h = omega arith
  unread_le (suc n) h = omega (arith, h n (omega arith), unread_le n (λ i lt. h i (omega arith)))

  unread_less :
      (cpus i : ℕ)
      → ((j : ℕ) → j < cpus → f j ≤ g j)
      → i < cpus
      → f i < g i
      → g i ≤ heads i
      → unread cpus heads g < unread cpus heads f
  unfolding unread
  unread_less zero i h lt l u = absurd (omega arith)
  unread_less (suc n) i h lt l u = elim (ℕ_discrete i n) [
    | yes e ↦ omega (
      arith,
      unread_le n (λ j p. h j (omega arith)),
      subst (λ k. f k < g k) e l,
      subst (λ k. g k ≤ heads k) e u,
    )
    | no ne ↦
        omega
          (arith, h n (omega arith), unread_less n i (λ j p. h j (omega arith)) (omega arith) l u)
  ]

  all_read : (cpus : ℕ) → ((i : ℕ) → i < cpus → f i ≡ heads i) → unread cpus heads f ≡ 0
  unfolding unread
  all_read zero h = refl
  all_read (suc n) h = omega (arith, h n (omega arith), all_read n (λ i lt. h i (omega arith)))

  nothing_left :
      (cpus : ℕ)
      → unread cpus heads f ≡ 0
      → Behind cpus f heads
      → (i : ℕ) → i < cpus
      → f i ≡ heads i
  unfolding unread
  nothing_left zero z b i lt = absurd (omega arith)
  nothing_left (suc n) z b i lt = elim (ℕ_discrete i n) [
    | yes e ↦ subst (λ k. f k ≡ heads k) (sym e) (omega (arith, b n (omega arith)))
    | no ne ↦ nothing_left n (omega arith) (λ j p. b j (omega arith)) i (omega arith)
  ]

-- If the log memory holds the history of every CPU, no CPU has been read past its head and no record is
-- written in between, then after at least as many calls of `dump_log` as there are unread records all
-- calls have returned and every CPU has been read up to its head: however little fits a page, no CPU
-- is left behind for ever.
pub dumps_catch_up :
    (buffer : LogBuffer) (cpus : ℕ) (histories : ℕ → ℕ → LogEntry) (heads : ℕ → ℕ)
    → Rings buffer cpus histories heads
    → (m : ℕ) (seq_nums : ℕ → ℕ) → Behind cpus seq_nums heads
    → unread cpus heads seq_nums ≤ m
    → (seq_nums' : ℕ → ℕ) × (dumps buffer cpus m seq_nums ≡ some seq_nums')
      × ((i : ℕ) → i < cpus → seq_nums' i ≡ heads i)
unfolding dumps
dumps_catch_up buffer cpus histories heads rings zero seq_nums behind le =
    (seq_nums, refl, λ i lt. nothing_left heads seq_nums seq_nums cpus (omega arith) behind i lt)
dumps_catch_up buffer cpus histories heads rings (suc m) seq_nums behind le =
    let (page, seq_nums', e, p) =
      dump_log-Progress buffer cpus histories heads seq_nums rings behind in
    let fewer : unread cpus heads seq_nums' ≤ m = elim p.moves [
      | inl all ↦ omega (arith, all_read heads seq_nums' seq_nums' cpus all)
      | inr more ↦
          (let (i, lt, l) = more in
            omega (arith, unread_less heads seq_nums seq_nums' cpus i p.lower lt l (p.upper i lt)))
    ] in
    rw (dumps, e) (dumps_catch_up buffer cpus histories heads rings m seq_nums' p.upper fewer)
