-- ===== src/PolicyCommon/Resource.antt =====
-- The identifiers of the monitored resources: `enum _RESOURCE_ID` of common/include/policy_common.h,
-- and the bits of CR0 and CR4. An identifier travels as a uint32_t, so it is any number.
use ikgt_usage.Base.{ℕ, bit_mask}

abbrev pub resource_id_start : ℕ
resource_id_start = 1

abbrev pub resource_id_cr0_pe : ℕ
resource_id_cr0_pe = 1

abbrev pub resource_id_cr0_mp : ℕ
resource_id_cr0_mp = 2

abbrev pub resource_id_cr0_em : ℕ
resource_id_cr0_em = 3

abbrev pub resource_id_cr0_ts : ℕ
resource_id_cr0_ts = 4

abbrev pub resource_id_cr0_et : ℕ
resource_id_cr0_et = 5

abbrev pub resource_id_cr0_ne : ℕ
resource_id_cr0_ne = 6

abbrev pub resource_id_cr0_wp : ℕ
resource_id_cr0_wp = 7

abbrev pub resource_id_cr0_am : ℕ
resource_id_cr0_am = 8

abbrev pub resource_id_cr0_nw : ℕ
resource_id_cr0_nw = 9

abbrev pub resource_id_cr0_cd : ℕ
resource_id_cr0_cd = 10

abbrev pub resource_id_cr0_pg : ℕ
resource_id_cr0_pg = 11

abbrev pub resource_id_cr4_vme : ℕ
resource_id_cr4_vme = 12

abbrev pub resource_id_cr4_pvi : ℕ
resource_id_cr4_pvi = 13

abbrev pub resource_id_cr4_tsd : ℕ
resource_id_cr4_tsd = 14

abbrev pub resource_id_cr4_de : ℕ
resource_id_cr4_de = 15

abbrev pub resource_id_cr4_pse : ℕ
resource_id_cr4_pse = 16

abbrev pub resource_id_cr4_pae : ℕ
resource_id_cr4_pae = 17

abbrev pub resource_id_cr4_mce : ℕ
resource_id_cr4_mce = 18

abbrev pub resource_id_cr4_pge : ℕ
resource_id_cr4_pge = 19

abbrev pub resource_id_cr4_pce : ℕ
resource_id_cr4_pce = 20

abbrev pub resource_id_cr4_osfxsr : ℕ
resource_id_cr4_osfxsr = 21

abbrev pub resource_id_cr4_osxmmexcpt : ℕ
resource_id_cr4_osxmmexcpt = 22

abbrev pub resource_id_cr4_vmxe : ℕ
resource_id_cr4_vmxe = 23

abbrev pub resource_id_cr4_smxe : ℕ
resource_id_cr4_smxe = 24

abbrev pub resource_id_cr4_pcide : ℕ
resource_id_cr4_pcide = 25

abbrev pub resource_id_cr4_osxsave : ℕ
resource_id_cr4_osxsave = 26

abbrev pub resource_id_cr4_smep : ℕ
resource_id_cr4_smep = 27

abbrev pub resource_id_cr4_smap : ℕ
resource_id_cr4_smap = 28

abbrev pub resource_id_msr_efer : ℕ
resource_id_msr_efer = 29

abbrev pub resource_id_msr_star : ℕ
resource_id_msr_star = 30

abbrev pub resource_id_msr_lstar : ℕ
resource_id_msr_lstar = 31

abbrev pub resource_id_msr_sysenter_cs : ℕ
resource_id_msr_sysenter_cs = 32

abbrev pub resource_id_msr_sysenter_esp : ℕ
resource_id_msr_sysenter_esp = 33

abbrev pub resource_id_msr_sysenter_eip : ℕ
resource_id_msr_sysenter_eip = 34

abbrev pub resource_id_msr_sysenter_pat : ℕ
resource_id_msr_sysenter_pat = 35

abbrev pub resource_id_end : ℕ
resource_id_end = 36

abbrev pub resource_id_unknown : ℕ
resource_id_unknown = 37

abbrev pub cr0_pe : ℕ
cr0_pe = bit_mask 0

abbrev pub cr0_mp : ℕ
cr0_mp = bit_mask 1

abbrev pub cr0_em : ℕ
cr0_em = bit_mask 2

abbrev pub cr0_ts : ℕ
cr0_ts = bit_mask 3

abbrev pub cr0_et : ℕ
cr0_et = bit_mask 4

abbrev pub cr0_ne : ℕ
cr0_ne = bit_mask 5

abbrev pub cr0_wp : ℕ
cr0_wp = bit_mask 16

abbrev pub cr0_am : ℕ
cr0_am = bit_mask 18

abbrev pub cr0_nw : ℕ
cr0_nw = bit_mask 29

abbrev pub cr0_cd : ℕ
cr0_cd = bit_mask 30

abbrev pub cr0_pg : ℕ
cr0_pg = bit_mask 31

abbrev pub cr4_vme : ℕ
cr4_vme = bit_mask 0

abbrev pub cr4_pvi : ℕ
cr4_pvi = bit_mask 1

abbrev pub cr4_tsd : ℕ
cr4_tsd = bit_mask 2

abbrev pub cr4_de : ℕ
cr4_de = bit_mask 3

abbrev pub cr4_pse : ℕ
cr4_pse = bit_mask 4

abbrev pub cr4_pae : ℕ
cr4_pae = bit_mask 5

abbrev pub cr4_mce : ℕ
cr4_mce = bit_mask 6

abbrev pub cr4_pge : ℕ
cr4_pge = bit_mask 7

abbrev pub cr4_pce : ℕ
cr4_pce = bit_mask 8

abbrev pub cr4_osfxsr : ℕ
cr4_osfxsr = bit_mask 9

abbrev pub cr4_osxmmexcpt : ℕ
cr4_osxmmexcpt = bit_mask 10

abbrev pub cr4_vmxe : ℕ
cr4_vmxe = bit_mask 13

abbrev pub cr4_smxe : ℕ
cr4_smxe = bit_mask 14

abbrev pub cr4_pcide : ℕ
cr4_pcide = bit_mask 17

abbrev pub cr4_osxsave : ℕ
cr4_osxsave = bit_mask 18

abbrev pub cr4_smep : ℕ
cr4_smep = bit_mask 20

abbrev pub cr4_smap : ℕ
cr4_smap = bit_mask 21
