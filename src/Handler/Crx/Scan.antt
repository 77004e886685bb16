-- ===== src/Handler/Crx/Scan.antt =====
-- handler/cpu_cr0.c and handler/cpu_cr4.c: the loop over the slots, by the access counts, the counters and
-- the log that it leaves.
use ikgt_usage.Base.{
  ℕ, ◌+◌, ◌≡◌, refl, ap, subst, ◌∙◌, Bool, true, false, not, ◌&&◌, ◌||◌, List, [], ◌∷◌, map, arith,
  bit_and, ◌==◌, if◌then◌else◌, u64,
}
use ikgt_usage.PolicyCommon.Resource.{resource_id_unknown}
use ikgt_usage.Handler.Entry.{PolicyEntry, policy_entry_w_has_log, policy_entry_inc_access_count}
use ikgt_usage.Handler.Machine.{PolicyCounters}
use ikgt_usage.Handler.Crx.{
  Crx, CrxCtx, crx_res_id_to_mask, apply_crx_action, process_crx_policy, scan_step,
  scan_crx_policies,
}

-- The entry is about a bit of the register that the write changes.
unfoldable pub is_hit : Crx → ℕ → PolicyEntry → Bool
is_hit crx diff e =
    not (e.resource_id == resource_id_unknown)
    && (crx.is_crx_entry e
        && not (bit_and (crx_res_id_to_mask crx.mask_table e.resource_id) diff == 0))

-- The entries with the accesses to the changed bits counted.
abbrev pub counted : Crx → ℕ → PolicyEntry → PolicyEntry
counted crx diff e = if is_hit crx diff e then policy_entry_inc_access_count e else e

unfoldable pub hits : Crx → ℕ → List PolicyEntry → ℕ
unfolding is_hit
hits crx diff [] = 0
hits crx diff (e ∷ es) = (if is_hit crx diff e then 1 else 0) + hits crx diff es

-- Some entry about a changed bit asks for the log.
unfoldable pub is_logged : Crx → ℕ → List PolicyEntry → Bool
unfolding is_hit policy_entry_w_has_log
is_logged crx diff [] = false
is_logged crx diff (e ∷ es) =
    (is_hit crx diff e && policy_entry_w_has_log e) || is_logged crx diff es

-- All that the four counters of outcomes have counted.
abbrev pub total : PolicyCounters → ℕ
total c = c.allow_count + c.skip_count + c.sticky_count_allow + c.sticky_count_skip

action-total :
    (mask : ℕ) (e : PolicyEntry) (ctx : CrxCtx)
    → u64 (total (apply_crx_action mask e ctx).counters) ≡ u64 (total ctx.counters + 1)
unfolding apply_crx_action
action-total mask e ctx = ground arith

action-log :
    (mask : ℕ) (e : PolicyEntry) (ctx : CrxCtx) → (apply_crx_action mask e ctx).log ≡ ctx.log
unfolding apply_crx_action
action-log mask e ctx = ground arith

action-diff :
    (mask : ℕ) (e : PolicyEntry) (ctx : CrxCtx) → (apply_crx_action mask e ctx).diff ≡ ctx.diff
unfolding apply_crx_action
action-diff mask e ctx = ground arith

module _ (crx : Crx) (e : PolicyEntry) (ctx : CrxCtx) where
  abbrev logged : CrxCtx
  logged = record ctx { log = if policy_entry_w_has_log e then true else ctx.log }

  abbrev mask : ℕ
  mask = crx_res_id_to_mask crx.mask_table e.resource_id

  step_lem :
      ((scan_step crx e ctx).0 ≡ counted crx ctx.diff e)
      × ((scan_step crx e ctx).1.diff ≡ ctx.diff)
      × ((scan_step crx e ctx).1.log
          ≡ ((is_hit crx ctx.diff e && policy_entry_w_has_log e) || ctx.log))
      × (u64 (total (scan_step crx e ctx).1.counters)
          ≡ u64 (total ctx.counters + (if is_hit crx ctx.diff e then 1 else 0)))
  unfolding scan_step process_crx_policy is_hit
  step_lem =
      ground
        (arith, action-total mask e logged, action-log mask e logged, action-diff mask e logged)

-- The loop over the slots.
abbrev Scanned : Crx → List PolicyEntry → CrxCtx → Type 0
Scanned crx es ctx =
    ((scan_crx_policies crx es ctx).0 ≡ map (counted crx ctx.diff) es)
    × ((scan_crx_policies crx es ctx).1.log ≡ (is_logged crx ctx.diff es || ctx.log))
    × (u64 (total (scan_crx_policies crx es ctx).1.counters)
        ≡ u64 (total ctx.counters + hits crx ctx.diff es))

or_swap : (a b c : Bool) → (b || (a || c)) ≡ ((a || b) || c)
or_swap true true c = refl
or_swap true false c = refl
or_swap false b c = refl

pub scan_lem : (crx : Crx) (es : List PolicyEntry) (ctx : CrxCtx) → Scanned crx es ctx
unfolding scan_crx_policies is_logged hits
scan_lem crx [] ctx = (refl, refl, omega arith)
scan_lem crx (e ∷ es) ctx =
    let next : CrxCtx = (scan_step crx e ctx).1 in
    let (entry, diff, log, sum) = step_lem crx e ctx in
    let (entries, logs, sums) =
      subst
        (λ d.
          ((scan_crx_policies crx es next).0 ≡ map (counted crx d) es)
          × ((scan_crx_policies crx es next).1.log ≡ (is_logged crx d es || next.log))
          × (u64 (total (scan_crx_policies crx es next).1.counters)
              ≡ u64 (total next.counters + hits crx d es)))
        diff (scan_lem crx es next) in
    (
      rw (entry, entries) refl,
      logs
          ∙ (ap (is_logged crx ctx.diff es ||◌) log
              ∙ or_swap (is_hit crx ctx.diff e && policy_entry_w_has_log e)
                  (is_logged crx ctx.diff es) ctx.log),
      omega (arith, sum, sums),
    )
