-- ===== src/Handler/Msr.antt =====
-- handler/cpu_msr.c: writes to model-specific registers.
pub mod Audit
pub mod Decision
pub mod Index
pub mod Wrmsr
use ikgt_usage.Base.{
  ℕ, ◌*◌, ◌^◌, true, not, ◌||◌, List, [], ◌∷◌, Option, none, some, bit_and, bit_or, ◌==◌,
  if◌then◌else◌, u32, inc64,
}
use ikgt_usage.PolicyCommon.Resource.{resource_id_unknown}
use ikgt_usage.Handler.Entry.{
  PolicyEntry, PolicyTable, policy_entry_has_sticky, policy_entry_w_has_skip,
  policy_entry_w_has_log, policy_entry_inc_access_count,
}
use ikgt_usage.Handler.Api.{
  EventInfo, VmcsReg, gp_rax, gp_rcx, gp_rdx, guest_efer, guest_sysenter_cs, guest_sysenter_esp,
  guest_sysenter_eip, guest_pat, Env, Io, is_success, pure, ◌>>=◌, Response, redirect, allow,
}
use ikgt_usage.Handler.MaskTables.{
  msr_res_id_table, ia32_msr_efer, ia32_msr_sysenter_cs, ia32_msr_sysenter_esp,
  ia32_msr_sysenter_eip, ia32_msr_sysenter_pat, ia32_msr_invalid,
}
use ikgt_usage.Handler.Utils.{read_guest_reg}
use ikgt_usage.Handler.Machine.{PolicyCounters, Machine}
use ikgt_usage.Handler.Log.{log_event}

-- the loop of `res_id_to_msr` over rows `(msr_id, resource_id)`
unfoldable pub find_msr : List (ℕ × ℕ) → ℕ → ℕ
find_msr [] resource_id = ia32_msr_invalid
find_msr ((msr_id, id) ∷ rows) resource_id =
    if id == resource_id then msr_id else find_msr rows resource_id

unfoldable pub res_id_to_msr : ℕ → ℕ
unfolding find_msr
res_id_to_msr resource_id = u32 (find_msr msr_res_id_table resource_id)

-- What the branch on the actions decides: the response and the counters.
unfoldable pub apply_msr_action : PolicyEntry → ℕ → PolicyCounters → Response × PolicyCounters
unfolding policy_entry_has_sticky policy_entry_w_has_skip
apply_msr_action entry new_value c =
    if policy_entry_has_sticky entry
    then (if new_value == entry.sticky_val
        then (allow, record c { sticky_count_allow = inc64 c.sticky_count_allow })
        else (redirect, record c { sticky_count_skip = inc64 c.sticky_count_skip }))
    else (if policy_entry_w_has_skip entry
        then (redirect, record c { skip_count = inc64 c.skip_count })
        else (allow, record c { allow_count = inc64 c.allow_count }))

-- `process_msr_policy` on the machine, but for the entry's access count. It always returns TRUE.
unfoldable pub process_msr_policy : Env → EventInfo → ℕ → PolicyEntry → Machine → Machine
unfolding apply_msr_action policy_entry_w_has_log log_event
process_msr_policy env event_info new_value entry m =
    let logged = if policy_entry_w_has_log entry then log_event env event_info m else m in
    let decision = apply_msr_action entry new_value logged.msr_counters in
    record logged { response = decision.0; msr_counters = decision.1 }

-- The loop over the slots: the first entry for the register, which is processed and ends the loop,
-- and the slots with its access count raised.
unfoldable pub find_msr_policy : ℕ → List PolicyEntry → Option (PolicyEntry × List PolicyEntry)
unfolding res_id_to_msr policy_entry_inc_access_count
find_msr_policy msr_id [] = none
find_msr_policy msr_id (entry ∷ entries) =
    let rest = find_msr_policy msr_id entries in
    if (entry.resource_id == resource_id_unknown) || not (res_id_to_msr entry.resource_id == msr_id)
    then elim rest [ none ↦ none | some (e, es) ↦ some (e, entry ∷ es) ]
    else some (entry, policy_entry_inc_access_count entry ∷ entries)

-- What follows the loop: the processing of the entry found, if any.
unfoldable pub found_msr :
    Env → EventInfo → ℕ → PolicyTable → Option (PolicyEntry × List PolicyEntry) → Machine → Machine
unfolding process_msr_policy
found_msr env event_info new_value t none m = m
found_msr env event_info new_value t (some (entry, entries)) m =
    process_msr_policy env event_info new_value entry
      (record m { table = some (record t { policy_entry = entries }) })

-- The loop on the machine, for what `g_policy_table` points to.
unfoldable pub scan_msr_slots : Env → EventInfo → ℕ → ℕ → Option PolicyTable → Machine → Machine
unfolding find_msr_policy found_msr
scan_msr_slots env event_info new_value msr_id none m = record m { fault = true }
scan_msr_slots env event_info new_value msr_id (some t) m =
    found_msr env event_info new_value t (find_msr_policy msr_id t.policy_entry) m

-- `MAKE_U64(hi, lo)`
unfoldable pub make_u64 : ℕ → ℕ → ℕ
make_u64 hi lo = bit_or (bit_and hi 0xffffffff * 2 ^ 32) (bit_and lo 0xffffffff)

-- The `switch (rcx)`: the register of the VMCS that holds the current value.
unfoldable pub msr_guest_reg : ℕ → Option VmcsReg
msr_guest_reg rcx =
    if rcx == ia32_msr_efer
    then some guest_efer
    else if rcx == ia32_msr_sysenter_cs
    then some guest_sysenter_cs
    else if rcx == ia32_msr_sysenter_esp
    then some guest_sysenter_esp
    else if rcx == ia32_msr_sysenter_eip
    then some guest_sysenter_eip
    else if rcx == ia32_msr_sysenter_pat
    then some guest_pat
    else none

-- The read in the case of the switch, and what the handler goes on with.
unfoldable pub read_current : Env → Option VmcsReg → ℕ → ℕ → Io (Option (ℕ × ℕ))
unfolding read_guest_reg
read_current env none msr_id new_value = pure none
read_current env (some register) msr_id new_value = do
  cur_value ← read_guest_reg env register
  pure (if is_success cur_value.0 then some (msr_id, new_value) else none)

-- The reads of the handler: the index of the register and the guest's value, if all succeed and the
-- register is one of the five. The current value is kept in `ctx`, but no branch depends on it.
unfoldable pub msr_operands : Env → Io (Option (ℕ × ℕ))
unfolding read_guest_reg make_u64 msr_guest_reg read_current
msr_operands env = do
  rax ← read_guest_reg env gp_rax
  if is_success rax.0
      then (do
        rcx ← read_guest_reg env gp_rcx
        if is_success rcx.0
            then (do
              rdx ← read_guest_reg env gp_rdx
              if is_success rdx.0
                  then read_current env (msr_guest_reg rcx.1) (u32 rcx.1) (make_u64 rdx.1 rax.1)
                  else pure none)
            else pure none)
      else pure none

unfoldable pub decide_msr : Env → EventInfo → Option (ℕ × ℕ) → Machine → Machine
unfolding scan_msr_slots
decide_msr env event_info none m = m
decide_msr env event_info (some (msr_id, new_value)) m =
    scan_msr_slots env event_info new_value msr_id m.table m

unfoldable pub handle_msr_event : Env → EventInfo → Machine → Machine
unfolding msr_operands decide_msr
handle_msr_event env event_info m =
    let counted : Machine = record m {
      response = allow;
      msr_counters = record (m.msr_counters) { count = inc64 m.msr_counters.count };
    } in
    let operands = msr_operands env counted.trace in
    decide_msr env event_info operands.0 (record counted { trace = operands.1 })
