-- ===== src/Driver/Tables.antt =====
-- The tables of driver/cr0.c, driver/cr4.c and driver/msr.c: the name of a node, the bit or the
-- number of the register, and the resource identifier.
use ikgt_usage.Base.{ℕ, List, [], ◌∷◌}
use ikgt_usage.Base.Text.{codes}
use ikgt_usage.PolicyCommon.Resource.{
  cr0_pe, cr0_mp, cr0_em, cr0_ts, cr0_et, cr0_ne, cr0_wp, cr0_am, cr0_nw, cr0_cd, cr0_pg,
  resource_id_cr0_pe, resource_id_cr0_mp, resource_id_cr0_em, resource_id_cr0_ts,
  resource_id_cr0_et, resource_id_cr0_ne, resource_id_cr0_wp, resource_id_cr0_am,
  resource_id_cr0_nw, resource_id_cr0_cd, resource_id_cr0_pg, cr4_vme, cr4_pvi, cr4_tsd, cr4_de,
  cr4_pse, cr4_pae, cr4_mce, cr4_pge, cr4_pce, cr4_osfxsr, cr4_osxmmexcpt, cr4_vmxe, cr4_smxe,
  cr4_pcide, cr4_osxsave, cr4_smep, cr4_smap, resource_id_cr4_vme, resource_id_cr4_pvi,
  resource_id_cr4_tsd, resource_id_cr4_de, resource_id_cr4_pse, resource_id_cr4_pae,
  resource_id_cr4_mce, resource_id_cr4_pge, resource_id_cr4_pce, resource_id_cr4_osfxsr,
  resource_id_cr4_osxmmexcpt, resource_id_cr4_vmxe, resource_id_cr4_smxe, resource_id_cr4_pcide,
  resource_id_cr4_osxsave, resource_id_cr4_smep, resource_id_cr4_smap, resource_id_msr_efer,
  resource_id_msr_star, resource_id_msr_lstar, resource_id_msr_sysenter_cs,
  resource_id_msr_sysenter_esp, resource_id_msr_sysenter_eip, resource_id_msr_sysenter_pat,
}

-- `name_value_map`
pub record NameValueMap : Type 0 where
  pub name : List ℕ
  pub value : ℕ
  pub res_id : ℕ

abbrev pub row : List ℕ → ℕ → ℕ → NameValueMap
row name value res_id = record { name = name; value = value; res_id = res_id }

-- The terminator of the array is the end of the list.
abbrev pub cr0_bits : List NameValueMap
cr0_bits =
    row (codes "PE") cr0_pe resource_id_cr0_pe
    ∷ row (codes "MP") cr0_mp resource_id_cr0_mp
    ∷ row (codes "EM") cr0_em resource_id_cr0_em
    ∷ row (codes "TS") cr0_ts resource_id_cr0_ts
    ∷ row (codes "ET") cr0_et resource_id_cr0_et
    ∷ row (codes "NE") cr0_ne resource_id_cr0_ne
    ∷ row (codes "WP") cr0_wp resource_id_cr0_wp
    ∷ row (codes "AM") cr0_am resource_id_cr0_am
    ∷ row (codes "NW") cr0_nw resource_id_cr0_nw
    ∷ row (codes "CD") cr0_cd resource_id_cr0_cd
    ∷ row (codes "PG") cr0_pg resource_id_cr0_pg
    ∷ []

-- The terminator of the array is the end of the list.
abbrev pub cr4_bits : List NameValueMap
cr4_bits =
    row (codes "VME") cr4_vme resource_id_cr4_vme
    ∷ row (codes "PVI") cr4_pvi resource_id_cr4_pvi
    ∷ row (codes "TSD") cr4_tsd resource_id_cr4_tsd
    ∷ row (codes "DE") cr4_de resource_id_cr4_de
    ∷ row (codes "PSE") cr4_pse resource_id_cr4_pse
    ∷ row (codes "PAE") cr4_pae resource_id_cr4_pae
    ∷ row (codes "MCE") cr4_mce resource_id_cr4_mce
    ∷ row (codes "PGE") cr4_pge resource_id_cr4_pge
    ∷ row (codes "PCE") cr4_pce resource_id_cr4_pce
    ∷ row (codes "OSFXSR") cr4_osfxsr resource_id_cr4_osfxsr
    ∷ row (codes "OSXMMEXCPT") cr4_osxmmexcpt resource_id_cr4_osxmmexcpt
    ∷ row (codes "VMXE") cr4_vmxe resource_id_cr4_vmxe
    ∷ row (codes "SMXE") cr4_smxe resource_id_cr4_smxe
    ∷ row (codes "PCIDE") cr4_pcide resource_id_cr4_pcide
    ∷ row (codes "OSXSAVE") cr4_osxsave resource_id_cr4_osxsave
    ∷ row (codes "SMEP") cr4_smep resource_id_cr4_smep
    ∷ row (codes "SMAP") cr4_smap resource_id_cr4_smap
    ∷ []

abbrev pub msr_regs : List NameValueMap
msr_regs =
    row (codes "EFER") 0xC0000080 resource_id_msr_efer
    ∷ row (codes "STAR") 0xC0000081 resource_id_msr_star
    ∷ row (codes "LSTAR") 0xC0000082 resource_id_msr_lstar
    ∷ row (codes "SYSENTER_CS") 0x174 resource_id_msr_sysenter_cs
    ∷ row (codes "SYSENTER_ESP") 0x175 resource_id_msr_sysenter_esp
    ∷ row (codes "SYSENTER_EIP") 0x176 resource_id_msr_sysenter_eip
    ∷ row (codes "SYSENTER_PAT") 0x277 resource_id_msr_sysenter_pat
    ∷ []
