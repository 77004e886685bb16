-- ===== src/Handler/Crx.antt =====
-- handler/cpu_cr0.c and handler/cpu_cr4.c. The two files differ in the register, its table of bits,
-- its test on entries and its counters; what they share is written once, over those four.
pub mod Bits
pub mod Audit
pub mod Rows
pub mod Scan
pub mod Unchanged
pub mod Value
pub mod Outcome
use ikgt_usage.Base.{
  ℕ, Bool, true, false, not, ◌&&◌, ◌||◌, List, [], ◌∷◌, Option, none, some, bit_and, bit_xor, ◌==◌,
  if◌then◌else◌, inc64,
}
use ikgt_usage.PolicyCommon.Resource.{resource_id_unknown}
use ikgt_usage.Handler.Entry.{
  PolicyEntry, PolicyTable, is_cr0_entry, is_cr4_entry, policy_entry_has_sticky,
  policy_entry_w_has_skip, policy_entry_w_has_log, policy_entry_inc_access_count,
}
use ikgt_usage.Handler.Api.{
  Io, is_success, CpuReg, unknown, EventInfo, VmcsReg, guest_cr0, guest_cr4, Env, redirect, allow,
}
use ikgt_usage.Handler.MaskTables.{cr0_res_id_mask_table, cr4_res_id_mask_table}
use ikgt_usage.Handler.Operands.{read_operands}
use ikgt_usage.Handler.Utils.{read_guest_reg, write_guest_reg, get_ikgt_vmcs_guest_reg_id}
use ikgt_usage.Handler.Machine.{
  PolicyCounters, Machine, Steps, ◌>>=◌, ◌>>◌, give, return_if, modify, lift, check_status,
  run_steps,
}
use ikgt_usage.Handler.Log.{log_event}

-- What distinguishes the two registers.
pub record Crx : Type 0 where
  pub register : VmcsReg
  pub mask_table : List (ℕ × ℕ)
  pub is_crx_entry : PolicyEntry → Bool
  pub counters : Machine → PolicyCounters
  pub set_counters : Machine → PolicyCounters → Machine

-- `cr0_res_id_to_mask`: the mask of the first row with the identifier, or 0. A row is `(mask, id)`.
unfoldable pub crx_res_id_to_mask : List (ℕ × ℕ) → ℕ → ℕ
crx_res_id_to_mask [] resource_id = 0
crx_res_id_to_mask ((mask, id) ∷ rows) resource_id =
    if id == resource_id then mask else crx_res_id_to_mask rows resource_id

-- `policy_cr0_ctx`, with the static counters that the loop updates beside it.
pub record CrxCtx : Type 0 where
  pub new_value : ℕ
  pub cur_value : ℕ
  pub diff : ℕ
  pub log : Bool
  pub counters : PolicyCounters

-- The condition of the sticky branch: the bit differs from the lowest bit of the sticky value.
unfoldable pub differs_from_sticky : ℕ → ℕ → ℕ → Bool
differs_from_sticky new_value mask sticky_val =
    (not (bit_and new_value mask == 0) && (bit_and sticky_val 1 == 0))
    || ((bit_and new_value mask == 0) && not (bit_and sticky_val 1 == 0))

-- The branch on the actions: the new value and the counters.
unfoldable pub apply_crx_action : ℕ → PolicyEntry → CrxCtx → CrxCtx
unfolding differs_from_sticky policy_entry_has_sticky policy_entry_w_has_skip
apply_crx_action mask entry ctx =
    let c = ctx.counters in
    if policy_entry_has_sticky entry
    then (if differs_from_sticky ctx.new_value mask entry.sticky_val
        then record ctx {
          new_value = bit_xor ctx.new_value mask;
          counters = record c { sticky_count_skip = inc64 c.sticky_count_skip };
        }
        else record ctx { counters = record c { sticky_count_allow = inc64 c.sticky_count_allow } })
    else (if policy_entry_w_has_skip entry
        then record ctx {
          new_value = bit_xor ctx.new_value mask;
          counters = record c { skip_count = inc64 c.skip_count };
        }
        else record ctx { counters = record c { allow_count = inc64 c.allow_count } })

-- `process_cr0_policy`: the entry and the context afterwards. (No caller reads its result.)
unfoldable pub process_crx_policy : List (ℕ × ℕ) → PolicyEntry → CrxCtx → PolicyEntry × CrxCtx
unfolding crx_res_id_to_mask apply_crx_action policy_entry_w_has_log policy_entry_inc_access_count
process_crx_policy table entry ctx =
    let mask = crx_res_id_to_mask table entry.resource_id in
    let logged = record ctx { log = if policy_entry_w_has_log entry then true else ctx.log } in
    if bit_and mask ctx.diff == 0
    then (entry, ctx)
    else (policy_entry_inc_access_count entry, apply_crx_action mask entry logged)

-- One round of the loop over the slots.
unfoldable pub scan_step : Crx → PolicyEntry → CrxCtx → PolicyEntry × CrxCtx
unfolding process_crx_policy
scan_step crx entry ctx =
    if (entry.resource_id == resource_id_unknown) || not (crx.is_crx_entry entry)
    then (entry, ctx)
    else process_crx_policy crx.mask_table entry ctx

-- The loop over the slots.
unfoldable pub scan_crx_policies : Crx → List PolicyEntry → CrxCtx → List PolicyEntry × CrxCtx
unfolding scan_step
scan_crx_policies crx [] ctx = ([], ctx)
scan_crx_policies crx (entry ∷ entries) ctx =
    let step = scan_step crx entry ctx in
    let rest = scan_crx_policies crx entries step.1 in (step.0 ∷ rest.0, rest.1)

-- The loop on the machine, for what `g_policy_table` points to, and what it leaves in `ctx`.
unfoldable pub scan_slots : Crx → ℕ → ℕ → Option PolicyTable → Steps CrxCtx
unfolding scan_crx_policies
scan_slots crx cur_value new_value none m = (none, record m { fault = true })
scan_slots crx cur_value new_value (some t) m =
    let ctx : CrxCtx = record {
      new_value = new_value;
      cur_value = cur_value;
      diff = bit_xor cur_value new_value;
      log = false;
      counters = crx.counters m;
    } in
    let (entries, ctx') = scan_crx_policies crx t.policy_entry ctx in
    (
      some ctx',
      crx.set_counters (record m { table = some (record t { policy_entry = entries }) })
          ctx'.counters,
    )

unfoldable pub scan_table : Crx → ℕ → ℕ → Steps CrxCtx
unfolding scan_slots
scan_table crx cur_value new_value m = scan_slots crx cur_value new_value m.table m

-- The first half of the handler: the count and the reads.
unfoldable pub crx_operands : Crx → Env → CpuReg → Steps (VmcsReg × (ℕ × ℕ))
unfolding read_operands
crx_operands crx env operand_reg m =
    let start : Machine = record m { response = allow } in
    let counted : Machine =
      crx.set_counters start
        (record (crx.counters start) { count = inc64 (crx.counters start).count }) in
    let operands = read_operands env crx.register operand_reg counted.trace in
    (operands.0, record counted { trace = operands.1 })

-- What follows the loop: the log, and the response or the write to the operand's register.
unfoldable pub finish_crx_event : Env → EventInfo → VmcsReg → CrxCtx → Machine → Machine
unfolding log_event write_guest_reg
finish_crx_event env event_info operand_reg_id ctx m =
    let logged = if ctx.log then log_event env event_info m else m in
    if ctx.new_value == ctx.cur_value
    then record logged { response = redirect }
    else record logged {
      response = allow;
      trace = (write_guest_reg env operand_reg_id ctx.new_value logged.trace).1;
    }

-- The second half, for a value that differs.
unfoldable pub decide_crx : Crx → Env → EventInfo → VmcsReg × (ℕ × ℕ) → Steps (Unit {0})
unfolding scan_table finish_crx_event
decide_crx crx env event_info (operand_reg_id, (cur_value, new_value)) = do
  return_if (bit_xor cur_value new_value == 0)
  ctx ← scan_table crx cur_value new_value
  modify (finish_crx_event env event_info operand_reg_id ctx)

-- `handle_cr0_event` and `handle_cr4_event`, for the operand register of the event.
unfoldable pub handle_crx_event : Crx → Env → EventInfo → CpuReg → Machine → Machine
unfolding crx_operands decide_crx
handle_crx_event crx env event_info operand_reg =
    run_steps (crx_operands crx env operand_reg >>= decide_crx crx env event_info)

abbrev pub cr0 : Crx
cr0 = record {
  register = guest_cr0;
  mask_table = cr0_res_id_mask_table;
  is_crx_entry = is_cr0_entry;
  counters = λ m. m.cr0_counters;
  set_counters = λ m c. record m { cr0_counters = c };
}

abbrev pub cr4 : Crx
cr4 = record {
  register = guest_cr4;
  mask_table = cr4_res_id_mask_table;
  is_crx_entry = is_cr4_entry;
  counters = λ m. m.cr4_counters;
  set_counters = λ m c. record m { cr4_counters = c };
}

-- The functions of cpu_cr4.c that the loop calls, over its own table.
unfoldable pub cr4_res_id_to_mask : ℕ → ℕ
unfolding crx_res_id_to_mask
cr4_res_id_to_mask = crx_res_id_to_mask cr4_res_id_mask_table

unfoldable pub process_cr4_policy : PolicyEntry → CrxCtx → PolicyEntry × CrxCtx
unfolding process_crx_policy
process_cr4_policy = process_crx_policy cr4_res_id_mask_table

unfoldable pub handle_cr0_event : Env → EventInfo → CpuReg → Machine → Machine
unfolding handle_crx_event
handle_cr0_event = handle_crx_event cr0

unfoldable pub handle_cr4_event : Env → EventInfo → CpuReg → Machine → Machine
unfolding handle_crx_event
handle_cr4_event = handle_crx_event cr4
