-- ===== src/Ring/Reader/Pass.antt =====
-- driver/log.c: the outer loop of `dump_log`, for CPUs whose buffers hold histories.
use ikgt_usage.Base.{
  ℕ, zero, suc, ◌+◌, ◌≤◌, ◌<◌, ◌≡◌, ◌≢◌, refl, sym, ap, subst, true, false, [], arith, Option, none,
  some, append-nil, Bool-cases, inl, inr, ◌∙◌,
}
use native.Mathlib.Decide.{ℕ_discrete}
use ikgt_usage.PolicyCommon.{LogEntry, LogBuffer, logs_per_cpu}
use ikgt_usage.Driver.Log.{Dump, dump_cpu, dump_cpus, unless_full, format_record}
use ikgt_usage.Ring.Reader.{
  IsOpen, IsShown, Grows, IsShown-Grows, Grows-trans, Advance, Advances, Rings,
}
use ikgt_usage.Ring.Reader.Cpu.{PageOf, first_read, dump_cpu-Advances, dump_cpu-PageOf}

-- The numbers of the CPUs below `cpus` are at most their heads.
abbrev pub Behind : ℕ → (ℕ → ℕ) → (ℕ → ℕ) → Type 0
Behind cpus seq_nums heads = (i : ℕ) → i < cpus → seq_nums i ≤ heads i

-- What a dump makes of the CPUs from `c` up to `cpus`.
pub record Sweep (cpus : ℕ) (histories : ℕ → ℕ → LogEntry) (heads : ℕ → ℕ) (c : ℕ) (d d' : Dump)
    : Type 0 where
  pub grows : Grows d.page.bytes d'.page.bytes
  pub others : (i : ℕ) → i < c → d'.seq_nums i ≡ d.seq_nums i
  pub lower : (i : ℕ) → i < cpus → d.seq_nums i ≤ d'.seq_nums i
  pub upper : Behind cpus d'.seq_nums heads
  pub whole : d'.full ≡ false → (i : ℕ) → c ≤ i → i < cpus → d'.seq_nums i ≡ heads i
  pub shown :
      (i s : ℕ)
      → c ≤ i
      → i < cpus
      → heads i ≤ d.seq_nums i + logs_per_cpu
      → d.seq_nums i ≤ s
      → s < d'.seq_nums i
      → IsShown (format_record i (histories i s)) d'.page.bytes
  pub first :
      d'.full ≡ true → d.page.offset ≡ 0 → (i : ℕ) × (i < cpus) × (d.seq_nums i < d'.seq_nums i)

abbrev pub Sweeps : ℕ → (ℕ → ℕ → LogEntry) → (ℕ → ℕ) → ℕ → Dump → Option Dump → Type 0
Sweeps cpus histories heads c d none = false ≡ true
Sweeps cpus histories heads c d (some d') = Sweep cpus histories heads c d d'

module _ (cpus : ℕ) (histories : ℕ → ℕ → LogEntry) (heads : ℕ → ℕ) where
  abbrev low : ℕ → Dump → ℕ
  low c d = first_read (d.seq_nums c) (heads c)

  Advance-Behind :
      (c : ℕ) (d d1 : Dump)
      → Behind cpus d.seq_nums heads
      → Advance c (histories c) (low c d) (heads c) d d1
      → Behind cpus d1.seq_nums heads
  Advance-Behind c d d1 behind a i l = elim (ℕ_discrete i c) [
    | yes e ↦ subst (λ j. d1.seq_nums j ≤ heads j) (sym e) a.upper
    | no ne ↦ omega (arith, a.others i ne, behind i l)
  ]

  -- The page was filled on this CPU.
  filled :
      (c : ℕ) (d d1 : Dump)
      → c < cpus
      → Behind cpus d.seq_nums heads
      → Advance c (histories c) (low c d) (heads c) d d1
      → d1.full ≡ true
      → Sweep cpus histories heads c d d1
  filled c d d1 lt behind a f = record {
    grows = a.grows;
    others = λ i l. a.others i (omega arith);
    lower = λ i l. elim (ℕ_discrete i c) [
      | yes e ↦
          subst (λ j. d.seq_nums j ≤ d1.seq_nums j) (sym e) (omega (arith, a.lower, behind c lt))
      | no ne ↦ omega (arith, a.others i ne)
    ];
    upper = Advance-Behind c d d1 behind a;
    whole = λ z. absurd cc;
    shown = λ i s ge l near from upto. elim (ℕ_discrete i c) [
      | yes e ↦
          subst
            (λ j.
              d.seq_nums j ≤ s
              → heads j ≤ d.seq_nums j + logs_per_cpu
              → s < d1.seq_nums j
              → IsShown (format_record j (histories j s)) d1.page.bytes)
            (sym e) (λ p q r. a.shown s (omega (arith, behind c lt)) r) from near upto
      | no ne ↦ absurd (omega (arith, a.others i ne))
    ];
    first = λ z o. (c, lt, omega (arith, a.first z o, behind c lt));
  }

  -- All of this CPU was put on the page, and then came the others.
  passed :
      (c : ℕ) (d d1 d' : Dump)
      → c < cpus
      → Behind cpus d.seq_nums heads
      → Advance c (histories c) (low c d) (heads c) d d1
      → (d.seq_nums c ≡ heads c → d1.page ≡ d.page)
      → d1.full ≡ false
      → Sweep cpus histories heads (c + 1) d1 d'
      → Sweep cpus histories heads c d d'
  passed c d d1 d' lt behind a idle f s = record {
    grows = Grows-trans d.page.bytes d1.page.bytes d'.page.bytes a.grows s.grows;
    others = λ i l. s.others i (omega arith) ∙ a.others i (omega arith);
    lower = λ i l. elim (ℕ_discrete i c) [
      | yes e ↦
          subst (λ j. d.seq_nums j ≤ d'.seq_nums j) (sym e)
            (omega (arith, a.whole f, s.others c (omega arith), behind c lt))
      | no ne ↦ omega (arith, a.others i ne, s.lower i l)
    ];
    upper = s.upper;
    whole = λ z i ge l. elim (ℕ_discrete i c) [
      | yes e ↦ subst (λ j. d'.seq_nums j ≡ heads j) (sym e) (s.others c (omega arith) ∙ a.whole f)
      | no ne ↦ s.whole z i (omega arith) l
    ];
    shown = λ i k ge l near from upto. elim (ℕ_discrete i c) [
      | yes e ↦
          subst
            (λ j.
              d.seq_nums j ≤ k
              → heads j ≤ d.seq_nums j + logs_per_cpu
              → k < d'.seq_nums j
              → IsShown (format_record j (histories j k)) d'.page.bytes)
            (sym e)
            (λ p q r.
              IsShown-Grows _ d1.page.bytes d'.page.bytes
                (a.shown k (omega (arith, behind c lt)) (omega (arith, s.others c (omega arith))))
                s.grows)
            from near upto
      | no ne ↦
          s.shown i k (omega arith) l (omega (arith, a.others i ne)) (omega (arith, a.others i ne))
            upto
    ];
    first = λ z o. elim (ℕ_discrete (d.seq_nums c) (heads c)) [
      | yes e ↦
          let (i, l, more) = s.first z (ap (λ p. p.offset) (idle e) ∙ o) in
          let ne : i ≢ c = λ e'. absurd (
            omega (
              arith,
              s.others c (omega arith),
              subst (λ j. d1.seq_nums j < d'.seq_nums j) e' more,
            )) in
          (i, l, omega (arith, a.others i ne))
      | no ne ↦ (c, lt, omega (arith, a.whole f, s.others c (omega arith), behind c lt))
    ];
  }

module _ (cpus : ℕ) (histories : ℕ → ℕ → LogEntry) (heads : ℕ → ℕ) (c : ℕ) (d : Dump)
    (lt : c < cpus) (behind : Behind cpus d.seq_nums heads) where
  join :
      (d1 : Dump) (r : Option Dump)
      → Advance c (histories c) (low cpus histories heads c d) (heads c) d d1
      → (d.seq_nums c ≡ heads c → d1.page ≡ d.page)
      → d1.full ≡ false
      → Sweeps cpus histories heads (c + 1) d1 r
      → Sweeps cpus histories heads c d r
  join d1 none a idle g h = h
  join d1 (some d') a idle g h = passed cpus histories heads c d d1 d' lt behind a idle g h

  after_cpu :
      (rest : Dump → Option Dump) (r : Option Dump)
      → ((d1 : Dump)
          → Behind cpus d1.seq_nums heads
          → d1.full ≡ false
          → IsOpen d1.page
          → Sweeps cpus histories heads (c + 1) d1 (rest d1))
      → Advances c (histories c) (low cpus histories heads c d) (heads c) d r
      → (d.seq_nums c ≡ heads c → PageOf d.page r)
      → Sweeps cpus histories heads c d (unless_full rest r)
  after_cpu rest none k a idle = a
  after_cpu rest (some d1) k a idle = elim (Bool-cases d1.full) [
    | inl e ↦ simp e (filled cpus histories heads c d d1 lt behind a e)
    | inr e ↦ simp e (
        join d1 (rest d1) a idle e
          (k d1 (Advance-Behind cpus histories heads c d d1 behind a) e (a.open_ e)))
  ]

-- The outer loop from CPU `c` on, where every buffer holds a history.
pub dump_cpus-Sweeps :
    (buffer : LogBuffer) (cpus : ℕ) (histories : ℕ → ℕ → LogEntry) (heads : ℕ → ℕ)
    → Rings buffer cpus histories heads
    → (m c : ℕ) (d : Dump) → c + m ≡ cpus
    → Behind cpus d.seq_nums heads
    → d.full ≡ false
    → IsOpen d.page
    → Sweeps cpus histories heads c d (dump_cpus buffer m c d)
unfolding dump_cpus
dump_cpus-Sweeps buffer cpus histories heads rings zero c d all behind f open_ = record {
  grows = ([], sym (append-nil _));
  others = λ i l. refl;
  lower = λ i l. omega arith;
  upper = behind;
  whole = λ z i ge l. absurd (omega arith);
  shown = λ i s ge l. absurd (omega arith);
  first = λ z. absurd cc;
}
dump_cpus-Sweeps buffer cpus histories heads rings (suc m) c d all behind f open_ =
    let lt : c < cpus = omega arith in
    after_cpu cpus histories heads c d lt behind (dump_cpus buffer m (c + 1)) (dump_cpu buffer c d)
      (λ d1 b g o.
        dump_cpus-Sweeps buffer cpus histories heads rings m (c + 1) d1 (omega arith) b g o)
      (dump_cpu-Advances buffer c (histories c) (heads c) d (rings.holds c lt)
        (λ s. rings.numbered c s lt) (rings.range c lt) (behind c lt) f open_)
      (λ e.
        dump_cpu-PageOf buffer c (histories c) (heads c) d (rings.holds c lt) (rings.range c lt) e)
