-- ===== src/Handler/Crx/Bits.antt =====
-- What the loop over the policies does to each bit of the new value of a control register.
use ikgt_usage.Base.{
  ℕ, ◌+◌, ◌%◌, ◌^◌, ◌<◌, ◌≡◌, ◌≢◌, inl, inr, refl, true, not, List, [], ◌∷◌, none, some, arith,
  ◌==◌, if◌then◌else◌, ap, ◌∙◌, Bool-cases, All, subst, sym,
}
use native.Mathlib.Decide.{ℕ_discrete}
use ikgt_usage.Base.Bits.{
  bit, bit-lt-two, mask_test, mask_test_right, low_test, bit-flip_self, bit-flip_ne,
}
use ikgt_usage.PolicyCommon.Resource.{resource_id_unknown}
use ikgt_usage.Handler.Entry.{
  PolicyEntry, policy_entry_has_sticky, policy_entry_w_has_skip, policy_entry_w_has_log,
}
use ikgt_usage.Handler.Table.Lookup.{lookup, IsUnique}
use ikgt_usage.Handler.Crx.{
  Crx, CrxCtx, crx_res_id_to_mask, differs_from_sticky, apply_crx_action, process_crx_policy,
  scan_step, scan_crx_policies,
}

-- What the loop relies on in a register's table: each entry of the register has one bit as its mask,
-- at a position of its own.
pub record IsCrx (crx : Crx) : Type 0 where
  pub position : ℕ → ℕ
  pub one_bit :
      (e : PolicyEntry)
      → crx.is_crx_entry e ≡ true
      → crx_res_id_to_mask crx.mask_table e.resource_id ≡ 2 ^ position e.resource_id
  pub distinct :
      (e e' : PolicyEntry)
      → crx.is_crx_entry e ≡ true
      → crx.is_crx_entry e' ≡ true
      → position e.resource_id ≡ position e'.resource_id
      → e.resource_id ≡ e'.resource_id
  pub known : (e : PolicyEntry) → crx.is_crx_entry e ≡ true → e.resource_id ≢ resource_id_unknown

-- The value that the policy `e` gives a bit that is `cur` in the register and that the guest would
-- make `new`: a bit that does not change stays, a sticky one takes the lowest bit of the sticky value, a
-- skipped one keeps its value, and any other takes the guest's.
unfoldable pub decided : PolicyEntry → ℕ → ℕ → ℕ
decided e cur new =
    if cur == new
    then new
    else if policy_entry_has_sticky e
    then e.sticky_val % 2
    else if policy_entry_w_has_skip e
    then cur
    else new

decided_same : (e : PolicyEntry) (b : ℕ) → decided e b b ≡ b
unfolding decided
decided_same e b = ground arith

differs_from_sticky_lem : (x p s : ℕ) → differs_from_sticky x (2 ^ p) s ≡ not (bit x p == s % 2)
unfolding differs_from_sticky
differs_from_sticky_lem x p s =
    rw (mask_test_right p x, low_test s) (ground (arith, bit-lt-two x p))

-- The action on a bit that the guest changes.
action_self :
    (p : ℕ) (e : PolicyEntry) (ctx : CrxCtx) (cur : ℕ)
    → cur < 2
    → cur ≢ bit ctx.new_value p
    → bit (apply_crx_action (2 ^ p) e ctx).new_value p ≡ decided e cur (bit ctx.new_value p)
unfolding apply_crx_action decided
action_self p e ctx cur lt ne = ground (
  arith,
  differs_from_sticky_lem ctx.new_value p e.sticky_val,
  bit-flip_self ctx.new_value p,
  bit-lt-two ctx.new_value p,
)

action_other :
    (p k : ℕ) (e : PolicyEntry) (ctx : CrxCtx)
    → p ≢ k
    → bit (apply_crx_action (2 ^ p) e ctx).new_value k ≡ bit ctx.new_value k
unfolding apply_crx_action
action_other p k e ctx ne = ground (arith, bit-flip_ne ctx.new_value p k ne)

action-diff :
    (mask : ℕ) (e : PolicyEntry) (ctx : CrxCtx) → (apply_crx_action mask e ctx).diff ≡ ctx.diff
unfolding apply_crx_action
action-diff mask e ctx = ground arith

module _ (crx : Crx) (c : IsCrx crx) where
  -- `e` is not about bit `k` of the register.
  abbrev pub Elsewhere : ℕ → PolicyEntry → Type 0
  Elsewhere k e = crx.is_crx_entry e ≡ true → c.position e.resource_id ≢ k

  pub step-diff : (e : PolicyEntry) (ctx : CrxCtx) → (scan_step crx e ctx).1.diff ≡ ctx.diff
  unfolding scan_step process_crx_policy
  step-diff e ctx = ground (
    arith,
    action-diff (crx_res_id_to_mask crx.mask_table e.resource_id) e
        (record ctx { log = if policy_entry_w_has_log e then true else ctx.log }),
  )

  process_other :
      (e : PolicyEntry) (ctx : CrxCtx) (k : ℕ)
      → crx.is_crx_entry e ≡ true
      → c.position e.resource_id ≢ k
      → bit (process_crx_policy crx.mask_table e ctx).1.new_value k ≡ bit ctx.new_value k
  unfolding process_crx_policy
  process_other e ctx k in_range off = rw (c.one_bit e in_range) (
      ground (
        arith,
        action_other (c.position e.resource_id) k e
            (record ctx { log = if policy_entry_w_has_log e then true else ctx.log }) off,
      ))

  pub step_other :
      (e : PolicyEntry) (ctx : CrxCtx) (k : ℕ)
      → Elsewhere k e
      → bit (scan_step crx e ctx).1.new_value k ≡ bit ctx.new_value k
  unfolding scan_step
  step_other e ctx k off = elim (Bool-cases (crx.is_crx_entry e)) [
    | inl in_range ↦ ground (arith, process_other e ctx k in_range (off in_range))
    | inr not_in_range ↦ ground arith
  ]

  -- The entry about a bit decides it, if the context still has the guest's bit and the difference.
  step_self :
      (e : PolicyEntry) (ctx : CrxCtx) (cur : ℕ)
      → crx.is_crx_entry e ≡ true
      → cur < 2
      → bit ctx.diff (c.position e.resource_id)
        ≡ (cur + bit ctx.new_value (c.position e.resource_id)) % 2
      → bit (scan_step crx e ctx).1.new_value (c.position e.resource_id)
        ≡ decided e cur (bit ctx.new_value (c.position e.resource_id))
  unfolding scan_step process_crx_policy
  step_self e ctx cur in_range lt d =
      rw (c.one_bit e in_range, mask_test (c.position e.resource_id) ctx.diff, in_range)
        (ground (
          arith,
          c.known e in_range,
          bit-lt-two ctx.new_value (c.position e.resource_id),
          action_self (c.position e.resource_id) e
              (record ctx { log = if policy_entry_w_has_log e then true else ctx.log }) cur lt,
          decided_same e cur,
        ))

  -- A bit that no slot is about keeps its value.
  pub scan-Elsewhere :
      (es : List PolicyEntry) (ctx : CrxCtx) (k : ℕ)
      → All (Elsewhere k) es
      → bit (scan_crx_policies crx es ctx).1.new_value k ≡ bit ctx.new_value k
  unfolding scan_crx_policies
  scan-Elsewhere [] ctx k off = refl
  scan-Elsewhere (e ∷ es) ctx k off =
      scan-Elsewhere es (scan_step crx e ctx).1 k off.1 ∙ step_other e ctx k off.0

  -- Slots without the identifier of `e` are not about its bit.
  pub absent-Elsewhere :
      (e : PolicyEntry) (es : List PolicyEntry)
      → crx.is_crx_entry e ≡ true
      → lookup e.resource_id es ≡ none
      → All (Elsewhere (c.position e.resource_id)) es
  unfolding lookup
  absent-Elsewhere e [] in_range absent = tt
  absent-Elsewhere e (x ∷ es) in_range absent = (
    λ x_in_range same. ground (arith, c.distinct x e x_in_range in_range same),
    absent-Elsewhere e es in_range (ground arith),
  )

  pub scan-decided :
      (e : PolicyEntry) (es : List PolicyEntry) (ctx : CrxCtx) (cur new : ℕ)
      → IsUnique es
      → lookup e.resource_id es ≡ some e
      → crx.is_crx_entry e ≡ true
      → cur < 2
      → bit ctx.new_value (c.position e.resource_id) ≡ new
      → bit ctx.diff (c.position e.resource_id) ≡ (cur + new) % 2
      → bit (scan_crx_policies crx es ctx).1.new_value (c.position e.resource_id)
        ≡ decided e cur new
  unfolding scan_crx_policies lookup
  scan-decided e [] ctx cur new u found in_range lt n d = cc
  scan-decided e (x ∷ es) ctx cur new u found in_range lt n d =
      elim (ℕ_discrete x.resource_id e.resource_id) [
        | yes p ↦
            let same : x ≡ e = ground (arith, found) in
            let absent : lookup e.resource_id es ≡ none = ground (arith, c.known e in_range) in
            subst
              (λ y.
                bit (scan_crx_policies crx es (scan_step crx y ctx).1).1.new_value
                  (c.position e.resource_id)
                ≡ decided e cur new)
              (sym same)
              (scan-Elsewhere es (scan_step crx e ctx).1 (c.position e.resource_id)
                  (absent-Elsewhere e es in_range absent)
                ∙ step_self e ctx cur in_range lt (rw n d)
                ∙ ap (decided e cur) n)
        | no ne ↦
            let off : Elsewhere (c.position e.resource_id) x =
              λ x_in_range same. ne (c.distinct x e x_in_range in_range same) in
            scan-decided e es (scan_step crx x ctx).1 cur new u.1 (ground arith) in_range lt
              (step_other x ctx (c.position e.resource_id) off ∙ n)
              (ap (λ y. bit y (c.position e.resource_id)) (step-diff x ctx) ∙ d)
      ]
