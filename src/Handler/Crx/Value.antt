-- ===== src/Handler/Crx/Value.antt =====
-- The value that the loop leaves in `ctx.new_cr0_value` or `ctx.new_cr4_value`, for a valid table.
use ikgt_usage.Base.{ℕ, ◌≡◌, true, some, bit_xor, refl, All, false}
use ikgt_usage.Base.Bits.{bit, bit-xor, bit-lt-two}
use ikgt_usage.Handler.Entry.{PolicyEntry, PolicyTable}
use ikgt_usage.Handler.Table.Lookup.{lookup, IsValid}
use ikgt_usage.Handler.Machine.{PolicyCounters}
use ikgt_usage.Handler.Crx.{Crx, CrxCtx, scan_crx_policies}
use ikgt_usage.Handler.Crx.Bits.{IsCrx, Elsewhere, decided, scan-decided, scan-Elsewhere}

-- The context before the loop.
abbrev pub start_ctx : ℕ → ℕ → PolicyCounters → CrxCtx
start_ctx cur new counters = record {
  new_value = new;
  cur_value = cur;
  diff = bit_xor cur new;
  log = false;
  counters = counters;
}

-- The value after the loop, from the register's value and the guest's.
unfoldable pub policy_value : Crx → PolicyTable → PolicyCounters → ℕ → ℕ → ℕ
policy_value crx t counters cur new =
    (scan_crx_policies crx t.policy_entry (start_ctx cur new counters)).1.new_value

-- In a valid table, the entry of a bit of CR0 or CR4 decides what the guest's write gives that bit:
-- an unchanged bit stays, a sticky one becomes the lowest bit of the sticky value, a skipped one keeps the
-- register's value, and any other takes the guest's. Other entries have no part in it.
pub bit-policy_value :
    (crx : Crx) (c : IsCrx crx) (t : PolicyTable) (e : PolicyEntry) (counters : PolicyCounters)
    (cur new : ℕ)
    → IsValid t
    → lookup e.resource_id t.policy_entry ≡ some e
    → crx.is_crx_entry e ≡ true
    → bit (policy_value crx t counters cur new) (c.position e.resource_id)
      ≡ decided e (bit cur (c.position e.resource_id)) (bit new (c.position e.resource_id))
unfolding policy_value
bit-policy_value crx c t e counters cur new v found in_range =
    scan-decided crx c e t.policy_entry (start_ctx cur new counters)
      (bit cur (c.position e.resource_id)) (bit new (c.position e.resource_id)) v.unique found
      in_range (bit-lt-two cur (c.position e.resource_id)) refl
      (bit-xor cur new (c.position e.resource_id))

-- A bit that no entry of the table is about takes the guest's value.
pub bit-policy_value_free :
    (crx : Crx) (c : IsCrx crx) (t : PolicyTable) (k : ℕ) (counters : PolicyCounters) (cur new : ℕ)
    → All (Elsewhere crx c k) t.policy_entry
    → bit (policy_value crx t counters cur new) k ≡ bit new k
unfolding policy_value
bit-policy_value_free crx c t k counters cur new off =
    scan-Elsewhere crx c t.policy_entry (start_ctx cur new counters) k off
