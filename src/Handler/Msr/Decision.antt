-- ===== src/Handler/Msr/Decision.antt =====
-- The response to a write of a model-specific register, by the entry of its resource.
use ikgt_usage.Base.{
  ℕ, ◌≡◌, ◌≢◌, ap, ◌∙◌, List, [], ◌∷◌, none, some, arith, refl, ◌==◌, if◌then◌else◌,
}
use native.Mathlib.Decide.{ℕ_discrete}
use ikgt_usage.PolicyCommon.Resource.{resource_id_unknown}
use ikgt_usage.Handler.Entry.{
  PolicyEntry, PolicyTable, policy_entry_has_sticky, policy_entry_w_has_skip,
  policy_entry_inc_access_count,
}
use ikgt_usage.Handler.Api.{EventInfo, Env, Response, redirect, allow}
use ikgt_usage.Handler.MaskTables.{ia32_msr_invalid}
use ikgt_usage.Handler.Machine.{Machine}
use ikgt_usage.Handler.Table.Lookup.{lookup, IsUnique, IsValid}
use ikgt_usage.Handler.Msr.{
  find_msr, res_id_to_msr, find_msr_policy, found_msr, scan_msr_slots, process_msr_policy,
  apply_msr_action,
}

-- Two resources with the same register are the same.
pub res_id_to_msr_inj :
    (i j : ℕ) → res_id_to_msr i ≡ res_id_to_msr j → res_id_to_msr i ≢ ia32_msr_invalid → i ≡ j
unfolding res_id_to_msr find_msr
res_id_to_msr_inj i j e ne = ground arith

find_msr_policy-lookup :
    (id : ℕ) (es : List PolicyEntry) (e : PolicyEntry)
    → IsUnique es
    → lookup id es ≡ some e
    → id ≢ resource_id_unknown
    → res_id_to_msr id ≢ ia32_msr_invalid
    → (es' : List PolicyEntry) × (find_msr_policy (res_id_to_msr id) es ≡ some (e, es'))
unfolding find_msr_policy lookup
find_msr_policy-lookup id [] e u found named known = cc
find_msr_policy-lookup id (x ∷ es) e u found named known = elim (ℕ_discrete x.resource_id id) [
  | yes p ↦ (policy_entry_inc_access_count x ∷ es, ground (arith, found, p))
  | no ne ↦
      let rest = find_msr_policy-lookup id es e u.1 (ground (arith, found)) named known in
      (x ∷ rest.0, ground (arith, rest.1, res_id_to_msr_inj x.resource_id id))
]

-- What a policy answers to the value: a sticky one allows its own value only, a skipping one allows
-- none, and any other allows all.
unfoldable pub msr_response : PolicyEntry → ℕ → Response
msr_response e value =
    if policy_entry_has_sticky e
    then (if value == e.sticky_val then allow else redirect)
    else if policy_entry_w_has_skip e
    then redirect
    else allow

process-response :
    (env : Env) (info : EventInfo) (value : ℕ) (e : PolicyEntry) (m : Machine)
    → (process_msr_policy env info value e m).response ≡ msr_response e value
unfolding process_msr_policy apply_msr_action msr_response
process-response env info value e m = ground arith

-- In a valid table, the entry of a resource that the handler knows as a register decides the
-- response to a write of that register: a sticky policy allows its own value and redirects any
-- other, a skip policy redirects, any other allows.
pub response-scan_msr :
    (env : Env) (info : EventInfo) (value id : ℕ) (t : PolicyTable) (e : PolicyEntry) (m : Machine)
    → IsValid t
    → lookup id t.policy_entry ≡ some e
    → id ≢ resource_id_unknown
    → res_id_to_msr id ≢ ia32_msr_invalid
    → (scan_msr_slots env info value (res_id_to_msr id) (some t) m).response ≡ msr_response e value
unfolding scan_msr_slots found_msr
response-scan_msr env info value id t e m v found named known =
    let (es, q) = find_msr_policy-lookup id t.policy_entry e v.unique found named known in
    ap (λ o. (found_msr env info value t o m).response) q
    ∙ process-response env info value e (record m { table = some (record t { policy_entry = es }) })

find_msr_policy_absent :
    (id : ℕ) (es : List PolicyEntry)
    → lookup id es ≡ none
    → res_id_to_msr id ≢ ia32_msr_invalid
    → find_msr_policy (res_id_to_msr id) es ≡ none
unfolding find_msr_policy lookup
find_msr_policy_absent id [] absent known = refl
find_msr_policy_absent id (x ∷ es) absent known =
    ground (arith, find_msr_policy_absent id es, res_id_to_msr_inj x.resource_id id)

-- Without an entry of its resource, a register's write leaves the machine as it is.
pub scan_msr_slots_absent :
    (env : Env) (info : EventInfo) (value id : ℕ) (t : PolicyTable) (m : Machine)
    → lookup id t.policy_entry ≡ none
    → res_id_to_msr id ≢ ia32_msr_invalid
    → scan_msr_slots env info value (res_id_to_msr id) (some t) m ≡ m
unfolding scan_msr_slots found_msr
scan_msr_slots_absent env info value id t m absent known =
    ap (λ o. found_msr env info value t o m) (find_msr_policy_absent id t.policy_entry absent known)
