-- ===== src/Tests/Protection.antt =====
-- A write of the guest to CR0 that would clear a protected bit.
use ikgt_usage.Base.{ℕ, ◌<◌, ◌^◌, ◌≡◌, ◌∷◌, [], refl, arith, some, true}
use ikgt_usage.Base.Bits.{bit}
use ikgt_usage.PolicyCommon.Resource.{resource_id_cr0_wp}
use ikgt_usage.Handler.Entry.{PolicyTable, is_cr0_entry}
use ikgt_usage.Handler.Api.{EventInfo, CpuReg, cpu, reg, gp_rax}
use ikgt_usage.Handler.Machine.{Machine, boot}
use ikgt_usage.Handler.Operands.{read_operands}
use ikgt_usage.Handler.Utils.{read_guest_reg, get_ikgt_vmcs_guest_reg_id}
use ikgt_usage.Handler.Table.{empty_table, policy_entry_add, update_first}
use ikgt_usage.Handler.Table.Lookup.{lookup}
use ikgt_usage.Handler.Table.Laws.{empty_table-IsValid, add-IsValid}
use ikgt_usage.Handler.Crx.{cr0, crx_operands}
use ikgt_usage.Handler.Crx.Rows.{cr0-IsCrx}
use ikgt_usage.Handler.Crx.Value.{policy_value}
use ikgt_usage.Handler.Crx.Unchanged.{policy_value_same}
use ikgt_usage.Handler.Crx.Audit.{Audited, cr0-IsApart}
use ikgt_usage.Handler.Events.{handler_report_event, report_events}
use ikgt_usage.Handler.Frame.{rules, rules_of}
use ikgt_usage.Handler.Invariant.{IsRunning, IsValid-rules_of}
use ikgt_usage.System.Protection.{Protects, cr0-IsHandled, entering, report_events-Protects}
use ikgt_usage.System.Audit.{handler_report_event-Audited}
use ikgt_usage.Tests.{cleared, wp_entry, sample_env, message_event}

abbrev wp_table : PolicyTable
wp_table = policy_entry_add wp_entry empty_table

abbrev protected : Machine
unfolding boot
protected = record (boot (λ h. cleared) []) {
  init_status = true;
  table = some wp_table;
  immutable = true;
}

protected-IsRunning : IsRunning protected
unfolding rules boot
protected-IsRunning = record {
  initialised = refl;
  loaded = (
    rules_of wp_table,
    refl,
    (IsValid-rules_of wp_table).0
        (add-IsValid wp_entry empty_table (omega arith) empty_table-IsValid.0),
  );
  no_fault = refl;
}

wp_there : lookup wp_entry.resource_id wp_table.policy_entry ≡ some wp_entry
unfolding lookup policy_entry_add update_first
wp_there = refl

wp_of_cr0 : cr0.is_crx_entry wp_entry ≡ true
unfolding is_cr0_entry
wp_of_cr0 = refl

abbrev cr0_write : EventInfo
cr0_write = record message_event { event_data = cpu reg CpuReg.cr0 CpuReg.rax }

operands :
    (crx_operands cr0
      (sample_env true)
      CpuReg.rax
      (entering (report_events (sample_env true) (message_event ∷ []) protected))).0
    ≡ some (gp_rax, (0x10001, 1))
unfolding crx_operands read_operands read_guest_reg get_ikgt_vmcs_guest_reg_id
operands = refl

report_events-Protects_example :
    Protects (sample_env true) gp_rax 0x10001 1 (cr0-IsCrx.position resource_id_cr0_wp) wp_entry (
      handler_report_event
        (sample_env true)
        cr0_write
        (report_events (sample_env true) (message_event ∷ []) protected))
unfolding protected
report_events-Protects_example =
    report_events-Protects cr0 cr0-IsCrx CpuReg.cr0 cr0-IsHandled (sample_env true) cr0_write
      (message_event ∷ []) CpuReg.rax gp_rax 0x10001 1 protected wp_table wp_entry
      protected-IsRunning refl refl wp_there wp_of_cr0 refl operands (omega arith)

policy_value_same_example :
    ((k : ℕ)
      → bit 0x10001 k ≡ bit 1 k
      → bit (policy_value cr0 wp_table protected.cr0_counters 0x10001 1) k ≡ bit 0x10001 k)
    × (policy_value cr0 wp_table protected.cr0_counters 0x10001 1 < 2 ^ 64)
policy_value_same_example =
    policy_value_same cr0 cr0-IsCrx wp_table protected.cr0_counters 64 0x10001 1 (omega arith)
      (omega arith)

at_once :
    (crx_operands cr0 (sample_env true) CpuReg.rax (entering protected)).0
    ≡ some (gp_rax, (0x10001, 1))
unfolding crx_operands read_operands read_guest_reg get_ikgt_vmcs_guest_reg_id
at_once = refl

handler_report_event-Audited_example :
    Audited cr0
      (sample_env true)
      cr0_write
      0x10001
      1
      wp_table
      (crx_operands cr0 (sample_env true) CpuReg.rax (entering protected)).1
      (handler_report_event (sample_env true) cr0_write protected)
unfolding protected
handler_report_event-Audited_example =
    handler_report_event-Audited cr0 cr0-IsApart CpuReg.cr0 cr0-IsHandled (sample_env true)
      cr0_write CpuReg.rax gp_rax 0x10001 1 wp_table protected refl refl refl at_once (omega arith)
