-- ===== src/Handler/Crx/Unchanged.antt =====
-- handler/cpu_cr0.c and handler/cpu_cr4.c: the bits that the guest's write leaves alone.
use ikgt_usage.Base.{
  ℕ, ◌≡◌, ◌<◌, ◌^◌, refl, sym, ◌∙◌, ap, List, [], ◌∷◌, arith, inl, inr, Bool-cases,
}
use native.Mathlib.Decide.{ℕ_discrete}
use ikgt_usage.Base.Bits.{bit, bit-xor, bit-lt-two, bit-of_less, less_of_bits, mask_test}
use ikgt_usage.Handler.Entry.{PolicyEntry, PolicyTable}
use ikgt_usage.Handler.Machine.{PolicyCounters}
use ikgt_usage.Handler.Crx.{Crx, CrxCtx, process_crx_policy, scan_step, scan_crx_policies}
use ikgt_usage.Handler.Crx.Bits.{IsCrx, step-diff, step_other}
use ikgt_usage.Handler.Crx.Value.{start_ctx, policy_value}

module _ (crx : Crx) (c : IsCrx crx) where
  step_same :
      (e : PolicyEntry) (ctx : CrxCtx) (k : ℕ)
      → bit ctx.diff k ≡ 0
      → bit (scan_step crx e ctx).1.new_value k ≡ bit ctx.new_value k
  unfolding scan_step process_crx_policy
  step_same e ctx k d = elim (ℕ_discrete (c.position e.resource_id) k) [
    | no off ↦ step_other crx c e ctx k (λ in_range. off)
    | yes here ↦ elim (Bool-cases (crx.is_crx_entry e)) [
      | inr not_in_range ↦ ground (arith, not_in_range)
      | inl in_range ↦
          rw (c.one_bit e in_range, here, mask_test k ctx.diff, in_range) (ground (arith, d))
    ]
  ]

  scan_same :
      (es : List PolicyEntry) (ctx : CrxCtx) (k : ℕ)
      → bit ctx.diff k ≡ 0
      → bit (scan_crx_policies crx es ctx).1.new_value k ≡ bit ctx.new_value k
  unfolding scan_crx_policies
  scan_same [] ctx k d = refl
  scan_same (e ∷ es) ctx k d =
      scan_same es (scan_step crx e ctx).1 k (ap (λ y. bit y k) (step-diff crx c e ctx) ∙ d)
      ∙ step_same e ctx k d

  same :
      (t : PolicyTable) (counters : PolicyCounters) (cur new k : ℕ)
      → bit cur k ≡ bit new k
      → bit (policy_value crx t counters cur new) k ≡ bit cur k
  unfolding policy_value
  same t counters cur new k e =
      scan_same t.policy_entry (start_ctx cur new counters) k
        (omega (arith, bit-xor cur new k, e, bit-lt-two cur k))
      ∙ sym e

-- Whatever the table holds, a bit of CR0 or CR4 that the guest's write does not change keeps the
-- register's value, and the value is as wide as the two: below 2 ^ w if the register's value and the
-- guest's are.
pub policy_value_same :
    (crx : Crx) (c : IsCrx crx) (t : PolicyTable) (counters : PolicyCounters) (w cur new : ℕ)
    → cur < 2 ^ w
    → new < 2 ^ w
    → ((k : ℕ) → bit cur k ≡ bit new k → bit (policy_value crx t counters cur new) k ≡ bit cur k)
      × (policy_value crx t counters cur new < 2 ^ w)
policy_value_same crx c t counters w cur new lt lt' = (
  same crx c t counters cur new,
  less_of_bits w (policy_value crx t counters cur new) (λ k le.
      same crx c t counters cur new k (bit-of_less w cur k lt le ∙ sym (bit-of_less w new k lt' le))
      ∙ bit-of_less w cur k lt le),
)
