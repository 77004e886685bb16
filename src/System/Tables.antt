-- ===== src/System/Tables.antt =====
-- The tables of the driver and of the handler about the same resources.
use ikgt_usage.Base.{◌≡◌, ◌⊎◌, inl, inr, refl, All, Bool, arith}
use ikgt_usage.PolicyCommon.Resource.{resource_id_msr_star, resource_id_msr_lstar}
use ikgt_usage.Handler.Entry.{PolicyEntry, is_cr0_entry, is_cr4_entry}
use ikgt_usage.Handler.Api.{Env, Trace, error}
use ikgt_usage.Handler.MaskTables.{cr0_res_id_mask_table, cr4_res_id_mask_table, ia32_msr_invalid}
use ikgt_usage.Handler.Crx.{crx_res_id_to_mask}
use ikgt_usage.Handler.Msr.{find_msr, res_id_to_msr}
use ikgt_usage.Handler.Policy.{policy_set_monitor}
use ikgt_usage.Driver.Tables.{cr0_bits, cr4_bits, msr_regs}

-- The tables of the driver and of the handler agree. For each bit that the driver offers in CR0 or CR4,
-- the mask that it sends is the mask that the handler has for the resource. For each register that it
-- offers, the handler knows the same register for the resource, but for STAR and LSTAR, of which it
-- knows none.
pub tables_agree :
    All (λ r. crx_res_id_to_mask cr0_res_id_mask_table r.res_id ≡ r.value) cr0_bits
    × All (λ r. crx_res_id_to_mask cr4_res_id_mask_table r.res_id ≡ r.value) cr4_bits
    × All
        (λ r.
          (res_id_to_msr r.res_id ≡ r.value)
          ⊎ (((r.res_id ≡ resource_id_msr_star) ⊎ (r.res_id ≡ resource_id_msr_lstar))
              × (res_id_to_msr r.res_id ≡ ia32_msr_invalid)))
        msr_regs
unfolding crx_res_id_to_mask res_id_to_msr find_msr
tables_agree = (
  search,
  search,
  (
    inl refl,
    (
      inr (inl refl, refl),
      (inr (inr refl, refl), (inl refl, (inl refl, (inl refl, (inl refl, tt))))),
    ),
  ),
)

-- An entry of STAR or LSTAR starts no monitoring: `policy_set_monitor` makes no call and returns an
-- error, to switch it on and to switch it off.
policy_set_monitor-star :
    (env : Env) (entry : PolicyEntry) (enable : Bool) (t : Trace)
    → (entry.resource_id ≡ resource_id_msr_star) ⊎ (entry.resource_id ≡ resource_id_msr_lstar)
    → policy_set_monitor env entry enable t ≡ (error, t)
unfolding policy_set_monitor is_cr0_entry is_cr4_entry res_id_to_msr find_msr
policy_set_monitor-star env entry enable t h = ground (arith, h)
