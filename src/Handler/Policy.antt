-- ===== src/Handler/Policy.antt =====
-- handler/policy.c: the policy table of the handler, the messages that change it, and the monitoring
-- that goes with an entry.
use ikgt_usage.Base.{ℕ, Bool, true, false, List, [], ◌∷◌, Option, none, some, ◌==◌, if◌then◌else◌}
use ikgt_usage.PolicyCommon.{PolicyUpdateRec, policy_act_log_allow}
use ikgt_usage.PolicyCommon.Resource.{resource_id_unknown, resource_id_cr4_smep, resource_id_cr0_cd}
use ikgt_usage.Handler.Entry.{PolicyEntry, PolicyTable, is_cr0_entry, is_cr4_entry}
use ikgt_usage.Handler.Api.{
  Status, success, error, is_success, CpuReg, cr0, cr4, Env, Io, pure, ikgt_malloc,
}
use ikgt_usage.Handler.MaskTables.{ia32_msr_invalid}
use ikgt_usage.Handler.Utils.{util_monitor_cpu_events, util_monitor_msr}
use ikgt_usage.Handler.Table.{empty_table, policy_entry_add, policy_entry_del, policy_msg_to_entry}
use ikgt_usage.Handler.Msr.{res_id_to_msr}
use ikgt_usage.Handler.Machine.{Machine}

-- The result and the machine afterwards.
unfoldable pub policy_initialize : Env → Machine → Bool × Machine
policy_initialize env m = elim m.table [
  | some _ ↦ (true, m)
  | none ↦
      let (allocated, trace) = ikgt_malloc env m.trace in
      if allocated
      then (true, record m { table = some empty_table; trace = trace })
      else (false, record m { trace = trace })
]

-- An entry with an identifier and a write action, and zeros else.
abbrev default_entry : ℕ → ℕ → PolicyEntry
default_entry id w_action = record {
  resource_id = id;
  flags = 0;
  access_count = 0;
  r_action = 0;
  w_action = w_action;
  x_action = 0;
  sticky_val = 0;
  resource_info = record { mask = 0; cpu_mask_1 = 0; cpu_mask_2 = 0 };
}

-- The terminator of the array is the end of the list.
abbrev default_policy_table : List PolicyEntry
default_policy_table =
    default_entry resource_id_cr4_smep policy_act_log_allow
    ∷ default_entry resource_id_cr0_cd policy_act_log_allow
    ∷ []

unfoldable pub add_entries : List PolicyEntry → PolicyTable → PolicyTable
unfolding policy_entry_add
add_entries [] t = t
add_entries (e ∷ es) t = add_entries es (policy_entry_add e t)

-- `add_default_policy`; the call of it in `policy_initialize` is commented out.
unfoldable pub add_default_policy : PolicyTable → PolicyTable
unfolding add_entries
add_default_policy = add_entries default_policy_table

unfoldable pub policy_monitor_cpu_events : Env → PolicyEntry → CpuReg → Bool → Io Status
unfolding util_monitor_cpu_events
policy_monitor_cpu_events env entry reg enable =
    util_monitor_cpu_events env entry.resource_info.cpu_mask_1 entry.resource_info.cpu_mask_2
      entry.resource_info.mask reg enable

unfoldable pub policy_monitor_msr : Env → PolicyEntry → ℕ → Bool → Io Status
unfolding util_monitor_msr
policy_monitor_msr env entry msr_id enable = util_monitor_msr env msr_id enable

unfoldable pub policy_set_monitor : Env → PolicyEntry → Bool → Io Status
unfolding policy_monitor_cpu_events policy_monitor_msr is_cr0_entry is_cr4_entry res_id_to_msr
policy_set_monitor env entry enable =
    if is_cr0_entry entry
    then policy_monitor_cpu_events env entry cr0 enable
    else if is_cr4_entry entry
    then policy_monitor_cpu_events env entry cr4 enable
    else if res_id_to_msr entry.resource_id == ia32_msr_invalid
    then pure error
    else policy_monitor_msr env entry (res_id_to_msr entry.resource_id) enable

unfoldable pub policy_sanity_check : PolicyUpdateRec → Status
policy_sanity_check msg = success

-- `policy_msg_add`, for what `g_policy_table` points to
unfoldable pub policy_msg_add_to :
    Env → PolicyUpdateRec → Option PolicyTable → Machine → Status × Machine
unfolding policy_msg_to_entry policy_entry_add policy_set_monitor
policy_msg_add_to env msg none m = (error, m)
policy_msg_add_to env msg (some t) m =
    let entry = policy_msg_to_entry msg env.stack_entry in
    let monitored = policy_set_monitor env entry true m.trace in
    if msg.resource_id == resource_id_unknown
    then (error, m)
    else (monitored.0, record m { table = some (policy_entry_add entry t); trace = monitored.1 })

unfoldable pub policy_msg_add : Env → PolicyUpdateRec → Machine → Status × Machine
unfolding policy_msg_add_to
policy_msg_add env msg m = policy_msg_add_to env msg m.table m

-- `policy_msg_del`, for what `g_policy_table` points to
unfoldable pub policy_msg_del_to :
    Env → PolicyUpdateRec → Option PolicyTable → Machine → Status × Machine
unfolding policy_msg_to_entry policy_entry_del policy_set_monitor
policy_msg_del_to env msg none m = (error, m)
policy_msg_del_to env msg (some t) m =
    let entry = policy_msg_to_entry msg env.stack_entry in
    let monitored = policy_set_monitor env entry false m.trace in
    if msg.resource_id == resource_id_unknown
    then (error, m)
    else (monitored.0, record m { table = some (policy_entry_del entry t); trace = monitored.1 })

unfoldable pub policy_msg_del : Env → PolicyUpdateRec → Machine → Status × Machine
unfolding policy_msg_del_to
policy_msg_del env msg m = policy_msg_del_to env msg m.table m

unfoldable pub handle_msg_policy_enable : Env → PolicyUpdateRec → Machine → Machine
unfolding policy_sanity_check policy_msg_add
handle_msg_policy_enable env msg m =
    if m.immutable
    then m
    else if is_success (policy_sanity_check msg)
    then (policy_msg_add env msg m).1
    else m

unfoldable pub handle_msg_policy_disable : Env → PolicyUpdateRec → Machine → Machine
unfolding policy_sanity_check policy_msg_del
handle_msg_policy_disable env msg m =
    if m.immutable
    then m
    else if is_success (policy_sanity_check msg)
    then (policy_msg_del env msg m).1
    else m

unfoldable pub handle_msg_policy_make_immutable : Machine → Machine
handle_msg_policy_make_immutable m = if m.immutable then m else record m { immutable = true }

-- `policy_debug`: the parameter 400 changes the state, and every other one dumps it. `policy_dump`
-- reads the table through its pointer.
unfoldable pub policy_debug : ℕ → Machine → Machine
unfolding handle_msg_policy_make_immutable
policy_debug parameter m =
    if parameter == 400
    then handle_msg_policy_make_immutable m
    else elim m.table [ none ↦ record m { fault = true } | some _ ↦ m ]
