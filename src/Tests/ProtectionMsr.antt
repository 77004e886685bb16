-- ===== src/Tests/ProtectionMsr.antt =====
-- A write of the guest to EFER, which a policy protects.
use ikgt_usage.Base.{◌≡◌, ◌≢◌, ◌∷◌, [], refl, arith, some, true}
use ikgt_usage.PolicyCommon.Resource.{resource_id_msr_efer}
use ikgt_usage.Handler.Entry.{PolicyEntry, PolicyTable}
use ikgt_usage.Handler.Api.{Env, EventInfo, CpuReg, cpu, msr, success, gp_rcx}
use ikgt_usage.Handler.MaskTables.{ia32_msr_invalid}
use ikgt_usage.Handler.Machine.{Machine, boot}
use ikgt_usage.Handler.Table.{empty_table, policy_entry_add, update_first}
use ikgt_usage.Handler.Table.Lookup.{lookup}
use ikgt_usage.Handler.Table.Laws.{empty_table-IsValid, add-IsValid}
use ikgt_usage.Base.Join.{join}
use ikgt_usage.Handler.Msr.Wrmsr.{IsWrmsr}
use ikgt_usage.Handler.Api.{Trace}
use ikgt_usage.Handler.Msr.{find_msr, res_id_to_msr}
use ikgt_usage.Handler.Msr.Decision.{msr_response}
use ikgt_usage.Handler.Events.{handler_report_event, report_events}
use ikgt_usage.Handler.Frame.{rules, rules_of}
use ikgt_usage.Handler.Invariant.{IsRunning, IsValid-rules_of}
use ikgt_usage.Handler.Msr.Audit.{MsrAudited}
use ikgt_usage.System.Audit.Msr.{read_by, handler_report_event-MsrAudited}
use ikgt_usage.System.Protection.Msr.{report_events-msr_response}
use ikgt_usage.Tests.{cleared, wp_entry, sample_env, message_event}

-- The guest writes 2 ^ 32 + 1 to the register 0xc0000080.
abbrev efer_env : Env
efer_env = record (sample_env true) {
  read_register = λ t r. (success, elim r [ gp_rcx ↦ 0xc0000080 | _ ↦ 1 ]);
}

abbrev efer_entry : PolicyEntry
efer_entry = record wp_entry { resource_id = resource_id_msr_efer }

abbrev efer_table : PolicyTable
efer_table = policy_entry_add efer_entry empty_table

abbrev protected : Machine
unfolding boot
protected = record (boot (λ h. cleared) []) {
  init_status = true;
  table = some efer_table;
  immutable = true;
}

protected-IsRunning : IsRunning protected
unfolding rules boot
protected-IsRunning = record {
  initialised = refl;
  loaded = (
    rules_of efer_table,
    refl,
    (IsValid-rules_of efer_table).0
        (add-IsValid efer_entry empty_table (omega arith) empty_table-IsValid.0),
  );
  no_fault = refl;
}

efer_there : lookup resource_id_msr_efer efer_table.policy_entry ≡ some efer_entry
unfolding lookup policy_entry_add update_first
efer_there = refl

efer_known : res_id_to_msr resource_id_msr_efer ≢ ia32_msr_invalid
unfolding res_id_to_msr find_msr
efer_known = omega arith

abbrev efer_write : EventInfo
efer_write = record message_event { event_data = cpu msr CpuReg.rax CpuReg.rax }

efer-IsWrmsr : (t : Trace) → IsWrmsr efer_env t (res_id_to_msr resource_id_msr_efer) 1 1
unfolding res_id_to_msr find_msr
efer-IsWrmsr t = record {
  memory = λ later. refl;
  answers = λ later r. refl;
  index = λ later. refl;
  low = λ later. refl;
  high = λ later. refl;
}

report_events-msr_response_example :
    (handler_report_event efer_env efer_write
      (report_events efer_env (message_event ∷ []) protected)).response
    ≡ msr_response efer_entry (join 1 1)
unfolding protected
report_events-msr_response_example =
    report_events-msr_response efer_env efer_write (message_event ∷ []) CpuReg.rax CpuReg.rax
      resource_id_msr_efer 1 1 protected efer_table efer_entry protected-IsRunning refl refl
      efer_there (omega arith) efer_known refl
      (efer-IsWrmsr (report_events efer_env (message_event ∷ []) protected).trace)

handler_report_event-MsrAudited_example :
    MsrAudited efer_env efer_write resource_id_msr_efer efer_table
      (read_by efer_env protected)
      (handler_report_event efer_env efer_write protected)
unfolding protected
handler_report_event-MsrAudited_example =
    handler_report_event-MsrAudited efer_env efer_write resource_id_msr_efer 1 1 efer_table
      protected CpuReg.rax CpuReg.rax refl refl (omega arith) efer_known refl
      (efer-IsWrmsr protected.trace)
