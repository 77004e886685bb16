-- ===== src/Handler/MaskTables.antt =====
-- The tables of handler/cpu_cr0.c, handler/cpu_cr4.c and handler/cpu_msr.c: a resource identifier and
-- the bit of the control register, or the number of the MSR, that it stands for.
use ikgt_usage.Base.{ℕ, List, [], ◌∷◌}
use ikgt_usage.PolicyCommon.Resource.{
  cr0_pe, cr0_mp, cr0_em, cr0_ts, cr0_et, cr0_ne, cr0_wp, cr0_am, cr0_nw, cr0_cd, cr0_pg,
  resource_id_cr0_pe, resource_id_cr0_mp, resource_id_cr0_em, resource_id_cr0_ts,
  resource_id_cr0_et, resource_id_cr0_ne, resource_id_cr0_wp, resource_id_cr0_am,
  resource_id_cr0_nw, resource_id_cr0_cd, resource_id_cr0_pg, cr4_vme, cr4_pvi, cr4_tsd, cr4_de,
  cr4_pse, cr4_pae, cr4_mce, cr4_pge, cr4_pce, cr4_osfxsr, cr4_osxmmexcpt, cr4_vmxe, cr4_smxe,
  cr4_pcide, cr4_osxsave, cr4_smep, cr4_smap, resource_id_cr4_vme, resource_id_cr4_pvi,
  resource_id_cr4_tsd, resource_id_cr4_de, resource_id_cr4_pse, resource_id_cr4_pae,
  resource_id_cr4_mce, resource_id_cr4_pge, resource_id_cr4_pce, resource_id_cr4_osfxsr,
  resource_id_cr4_osxmmexcpt, resource_id_cr4_vmxe, resource_id_cr4_smxe, resource_id_cr4_pcide,
  resource_id_cr4_osxsave, resource_id_cr4_smep, resource_id_cr4_smap, resource_id_msr_efer,
  resource_id_msr_sysenter_cs, resource_id_msr_sysenter_esp, resource_id_msr_sysenter_eip,
  resource_id_msr_sysenter_pat,
}

-- rows `(mask, resource_id)`
abbrev pub cr0_res_id_mask_table : List (ℕ × ℕ)
cr0_res_id_mask_table =
    (cr0_pe, resource_id_cr0_pe)
    ∷ (cr0_mp, resource_id_cr0_mp)
    ∷ (cr0_em, resource_id_cr0_em)
    ∷ (cr0_ts, resource_id_cr0_ts)
    ∷ (cr0_et, resource_id_cr0_et)
    ∷ (cr0_ne, resource_id_cr0_ne)
    ∷ (cr0_wp, resource_id_cr0_wp)
    ∷ (cr0_am, resource_id_cr0_am)
    ∷ (cr0_nw, resource_id_cr0_nw)
    ∷ (cr0_cd, resource_id_cr0_cd)
    ∷ (cr0_pg, resource_id_cr0_pg)
    ∷ []

-- rows `(mask, resource_id)`
abbrev pub cr4_res_id_mask_table : List (ℕ × ℕ)
cr4_res_id_mask_table =
    (cr4_vme, resource_id_cr4_vme)
    ∷ (cr4_pvi, resource_id_cr4_pvi)
    ∷ (cr4_tsd, resource_id_cr4_tsd)
    ∷ (cr4_de, resource_id_cr4_de)
    ∷ (cr4_pse, resource_id_cr4_pse)
    ∷ (cr4_pae, resource_id_cr4_pae)
    ∷ (cr4_mce, resource_id_cr4_mce)
    ∷ (cr4_pge, resource_id_cr4_pge)
    ∷ (cr4_pce, resource_id_cr4_pce)
    ∷ (cr4_osfxsr, resource_id_cr4_osfxsr)
    ∷ (cr4_osxmmexcpt, resource_id_cr4_osxmmexcpt)
    ∷ (cr4_vmxe, resource_id_cr4_vmxe)
    ∷ (cr4_smxe, resource_id_cr4_smxe)
    ∷ (cr4_pcide, resource_id_cr4_pcide)
    ∷ (cr4_osxsave, resource_id_cr4_osxsave)
    ∷ (cr4_smep, resource_id_cr4_smep)
    ∷ (cr4_smap, resource_id_cr4_smap)
    ∷ []

abbrev pub ia32_msr_efer : ℕ
ia32_msr_efer = 0xC0000080

abbrev pub ia32_msr_sysenter_cs : ℕ
ia32_msr_sysenter_cs = 0x174

abbrev pub ia32_msr_sysenter_esp : ℕ
ia32_msr_sysenter_esp = 0x175

abbrev pub ia32_msr_sysenter_eip : ℕ
ia32_msr_sysenter_eip = 0x176

abbrev pub ia32_msr_sysenter_pat : ℕ
ia32_msr_sysenter_pat = 0x277

abbrev pub ia32_msr_invalid : ℕ
ia32_msr_invalid = 0

-- rows `(msr_id, resource_id)`
abbrev pub msr_res_id_table : List (ℕ × ℕ)
msr_res_id_table =
    (ia32_msr_efer, resource_id_msr_efer)
    ∷ (ia32_msr_sysenter_cs, resource_id_msr_sysenter_cs)
    ∷ (ia32_msr_sysenter_esp, resource_id_msr_sysenter_esp)
    ∷ (ia32_msr_sysenter_eip, resource_id_msr_sysenter_eip)
    ∷ (ia32_msr_sysenter_pat, resource_id_msr_sysenter_pat)
    ∷ []
