-- ===== src/Tests/Policies.antt =====
-- A message that protects CR0.WP, and then a write of the guest to CR0 that would clear it.
use ikgt_usage.Base.{◌≡◌, ◌≢◌, ◌∷◌, [], refl, arith, some, true, List}
use ikgt_usage.PolicyCommon.{PolicyMessage, policy_entry_enable}
use ikgt_usage.PolicyCommon.Resource.{resource_id_cr0_wp, resource_id_msr_efer}
use ikgt_usage.Handler.Entry.{is_cr0_entry}
use ikgt_usage.Handler.Api.{Env, EventInfo, CpuReg, gp_rax, gp_rcx, cpu, reg, msr, success}
use ikgt_usage.Handler.Machine.{boot}
use ikgt_usage.Handler.Operands.{read_operands}
use ikgt_usage.Handler.Utils.{read_guest_reg, get_ikgt_vmcs_guest_reg_id}
use ikgt_usage.Handler.Crx.{cr0, crx_operands}
use ikgt_usage.Handler.Crx.Rows.{cr0-IsCrx}
use ikgt_usage.Handler.MaskTables.{ia32_msr_invalid}
use ikgt_usage.Base.Join.{join}
use ikgt_usage.Handler.Msr.Wrmsr.{IsWrmsr}
use ikgt_usage.Handler.Api.{Trace}
use ikgt_usage.Handler.Msr.{find_msr, res_id_to_msr}
use ikgt_usage.Handler.Events.{handler_initialize, handler_report_event, report_events}
use ikgt_usage.Handler.Policies.{policies, messages_of, replay, NamesResources}
use ikgt_usage.Handler.Policies.Sequences.{no_policies, policies-report_events}
use ikgt_usage.System.Protection.{cr0-IsHandled, entering}
use ikgt_usage.System.Answers.{Answers, after, left_by, entry_named, report_events-Answers}
use ikgt_usage.System.Answers.Msr.{answer_by, report_events-answer_by}
use ikgt_usage.Tests.{cleared, sample_env, sample_message, message_event}

abbrev pub protect_wp : PolicyMessage
protect_wp = record sample_message {
  command = policy_entry_enable;
  policy_data = record {
    resource_id = resource_id_cr0_wp;
    r_action = 0;
    w_action = 0x80;
    x_action = 0;
    sticky_val = 1;
    resource_info = record { mask = 0x10000; cpu_mask_1 = 1; cpu_mask_2 = 0 };
  };
}

abbrev protecting : Env
protecting = record (sample_env true) { copy_message = λ t a. (success, protect_wp) }

names : NamesResources protecting
names t gva ne = (omega arith, omega arith)

abbrev one_message : List EventInfo
one_message = message_event ∷ []

policies-report_events_example :
    policies (
      report_events protecting one_message (handler_initialize protecting (boot (λ h. cleared) [])))
    ≡ replay protecting
        (messages_of protecting one_message
          (handler_initialize protecting (boot (λ h. cleared) [])))
        no_policies
policies-report_events_example =
    policies-report_events protecting (λ h. cleared) [] one_message refl names

abbrev cr0_write : EventInfo
cr0_write = record message_event { event_data = cpu reg CpuReg.cr0 CpuReg.rax }

operands :
    (crx_operands cr0 protecting CpuReg.rax
      (entering (after protecting (λ h. cleared) [] one_message))).0
    ≡ some (gp_rax, (0x10001, 1))
unfolding crx_operands read_operands read_guest_reg get_ikgt_vmcs_guest_reg_id
operands = refl

of_cr0 : cr0.is_crx_entry (entry_named resource_id_cr0_wp) ≡ true
unfolding is_cr0_entry
of_cr0 = refl

report_events-Answers_example :
    Answers protecting gp_rax 0x10001 1
      (cr0-IsCrx.position resource_id_cr0_wp)
      (left_by protecting (λ h. cleared) [] one_message resource_id_cr0_wp)
      (handler_report_event protecting cr0_write (after protecting (λ h. cleared) [] one_message))
report_events-Answers_example =
    report_events-Answers cr0 cr0-IsCrx CpuReg.cr0 cr0-IsHandled resource_id_cr0_wp of_cr0
      protecting (λ h. cleared) [] one_message cr0_write CpuReg.rax gp_rax 0x10001 1 refl names refl
      operands (omega arith)

-- The same for EFER, 0xc0000080, to which the guest writes 2 ^ 32 + 1.
abbrev protecting_efer : Env
protecting_efer = record protecting {
  copy_message = λ t a. (
    success,
    record protect_wp {
      policy_data = record (protect_wp.policy_data) { resource_id = resource_id_msr_efer };
    },
  );
  read_register = λ t r. (success, elim r [ gp_rcx ↦ 0xc0000080 | _ ↦ 1 ]);
}

names_efer : NamesResources protecting_efer
names_efer t gva ne = (omega arith, omega arith)

efer_known : res_id_to_msr resource_id_msr_efer ≢ ia32_msr_invalid
unfolding res_id_to_msr find_msr
efer_known = omega arith

abbrev efer_write : EventInfo
efer_write = record message_event { event_data = cpu msr CpuReg.rax CpuReg.rax }

efer-IsWrmsr : (t : Trace) → IsWrmsr protecting_efer t (res_id_to_msr resource_id_msr_efer) 1 1
unfolding res_id_to_msr find_msr
efer-IsWrmsr t = record {
  memory = λ later. refl;
  answers = λ later r. refl;
  index = λ later. refl;
  low = λ later. refl;
  high = λ later. refl;
}

report_events-answer_by_example :
    (handler_report_event protecting_efer efer_write
      (after protecting_efer (λ h. cleared) [] one_message)).response
    ≡ answer_by
        (left_by protecting_efer (λ h. cleared) [] one_message resource_id_msr_efer)
        (join 1 1)
report_events-answer_by_example =
    report_events-answer_by protecting_efer efer_write resource_id_msr_efer 1 1 (omega arith)
      efer_known (λ h. cleared) [] one_message CpuReg.rax CpuReg.rax refl names_efer refl
      (efer-IsWrmsr (after protecting_efer (λ h. cleared) [] one_message).trace)
