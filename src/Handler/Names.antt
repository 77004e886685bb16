-- ===== src/Handler/Names.antt =====
-- handler/policy.c: the names of the resource identifiers, for printing.
use ikgt_usage.Base.{ℕ, ◌&&◌, List, [], ◌∷◌, Option, none, some, ltb, leb, if◌then◌else◌, get_elem?}
use Prim.Native.String.{String}
use ikgt_usage.PolicyCommon.Resource.{resource_id_start, resource_id_end}

-- The array of names; element 0 has none.
abbrev res_id_str_array : List (Option String)
res_id_str_array =
    none
    ∷ some "RESOURCE_ID_CR0_PE"
    ∷ some "RESOURCE_ID_CR0_MP"
    ∷ some "RESOURCE_ID_CR0_EM"
    ∷ some "RESOURCE_ID_CR0_TS"
    ∷ some "RESOURCE_ID_CR0_ET"
    ∷ some "RESOURCE_ID_CR0_NE"
    ∷ some "RESOURCE_ID_CR0_WP"
    ∷ some "RESOURCE_ID_CR0_AM"
    ∷ some "RESOURCE_ID_CR0_NW"
    ∷ some "RESOURCE_ID_CR0_CD"
    ∷ some "RESOURCE_ID_CR0_PG"
    ∷ some "RESOURCE_ID_CR4_VME"
    ∷ some "RESOURCE_ID_CR4_PVI"
    ∷ some "RESOURCE_ID_CR4_TSD"
    ∷ some "RESOURCE_ID_CR4_DE"
    ∷ some "RESOURCE_ID_CR4_PSE"
    ∷ some "RESOURCE_ID_CR4_PAE"
    ∷ some "RESOURCE_ID_CR4_MCE"
    ∷ some "RESOURCE_ID_CR4_PGE"
    ∷ some "RESOURCE_ID_CR4_PCE"
    ∷ some "RESOURCE_ID_CR4_OSFXSR"
    ∷ some "RESOURCE_ID_CR4_OSXMMEXCPT"
    ∷ some "RESOURCE_ID_CR4_VMXE"
    ∷ some "RESOURCE_ID_CR4_SMXE"
    ∷ some "RESOURCE_ID_CR4_PCIDE"
    ∷ some "RESOURCE_ID_CR4_OSXSAVE"
    ∷ some "RESOURCE_ID_CR4_SMEP"
    ∷ some "RESOURCE_ID_CR4_SMAP"
    ∷ some "RESOURCE_ID_MSR_EFER"
    ∷ some "RESOURCE_ID_MSR_STAR"
    ∷ some "RESOURCE_ID_MSR_LSTAR"
    ∷ some "RESOURCE_ID_MSR_SYSENTER_CS"
    ∷ some "RESOURCE_ID_MSR_SYSENTER_ESP"
    ∷ some "RESOURCE_ID_MSR_SYSENTER_EIP"
    ∷ some "RESOURCE_ID_MSR_SYSENTER_PAT"
    ∷ []

abbrev element : Option (Option String) → Option String
element none = none
element (some s) = s

-- `res_id_to_string`; `none` is a null pointer.
unfoldable pub res_id_to_string : ℕ → Option String
res_id_to_string id =
    if leb resource_id_start id && ltb id resource_id_end
    then element (get_elem? res_id_str_array id)
    else some ""
