-- ===== src/Tests/Moments.antt =====
-- A policy for CR0.WP and one for EFER that the user of the driver's directory asks for, and what the guest
-- does before and after.
use ikgt_usage.Base.{
  false, none, ◌==◌, if◌then◌else◌, ℕ, ◌-◌, ◌≡◌, ◌≢◌, List, [], ◌∷◌, some, true, refl, arith, ◌^◌,
}
use ikgt_usage.Base.Text.{codes, eq_ignoring_case}
use ikgt_usage.PolicyCommon.{PolicyMessage, policy_entry_enable}
use ikgt_usage.PolicyCommon.Resource.{resource_id_cr0_wp, resource_id_msr_efer}
use ikgt_usage.Handler.Entry.{is_cr0_entry}
use ikgt_usage.Handler.Api.{Env, EventInfo, CpuReg, gp_rax, gp_rcx, cpu, reg, msr, success}
use ikgt_usage.Handler.MaskTables.{ia32_msr_invalid}
use ikgt_usage.Handler.Crx.{cr0, crx_operands}
use ikgt_usage.Handler.Crx.Rows.{cr0-IsCrx}
use ikgt_usage.Handler.Operands.{read_operands}
use ikgt_usage.Handler.Utils.{read_guest_reg, get_ikgt_vmcs_guest_reg_id}
use ikgt_usage.Base.Join.{join}
use ikgt_usage.Handler.Msr.Wrmsr.{IsWrmsr}
use ikgt_usage.Handler.Api.{Trace}
use ikgt_usage.Handler.Msr.{find_msr, res_id_to_msr}
use ikgt_usage.Handler.Events.{handler_report_event}
use ikgt_usage.Handler.Policies.{policies, replay}
use ikgt_usage.Handler.Policies.Sequences.{no_policies}
use ikgt_usage.Driver.Kernel.{Kernel, kzalloc, kfree, hypercall}
use ikgt_usage.Driver.Nodes.{enable_attr, write_attr, sticky_attr}
use ikgt_usage.Driver.Session.{mkdir, write}
use ikgt_usage.Driver.Tree.{TreeOp, make_group, inside, run_tree}
use ikgt_usage.System.Protection.{cr0-IsHandled, entering}
use ikgt_usage.System.Answers.{Answers, entry_named}
use ikgt_usage.System.Answers.Msr.{answer_by}
use ikgt_usage.System.Session.{
  Step, driver, guest, calls_in, sent, IsMoment, handler_at, policies-run_steps,
}
use ikgt_usage.System.Session.Answers.{sent_policy, run_steps-Answers, run_steps-answer_by}
use ikgt_usage.Handler.Machine.{Machine, boot}
use ikgt_usage.Driver.Agent.{AgentLog, init_agent}
use ikgt_usage.Driver.Agent.Outcome.{numbers_at, log_bytes}
use ikgt_usage.System.Hypercall.{received}
use ikgt_usage.System.Log.{log_told, log_address, received-init_agent}
use ikgt_usage.Tests.{cleared, sample_env, sample_message, message_event}
use ikgt_usage.Tests.Driver

-- Every number that the user writes is 0x81, a policy that is sticky and logged, with the sticky value 1.
abbrev kernel : Kernel
kernel = record (Driver.kernel) { kstrtoul = λ text radix. some 0x81 }

abbrev session : List TreeOp
session =
    make_group (codes "cr0")
    ∷ inside (codes "cr0") (mkdir (codes "WP"))
    ∷ inside (codes "cr0") (write (codes "WP") write_attr (codes "81"))
    ∷ inside (codes "cr0") (write (codes "WP") sticky_attr (codes "81"))
    ∷ inside (codes "cr0") (write (codes "WP") enable_attr (codes "81"))
    ∷ make_group (codes "msr")
    ∷ inside (codes "msr") (mkdir (codes "EFER"))
    ∷ inside (codes "msr") (write (codes "EFER") write_attr (codes "81"))
    ∷ inside (codes "msr") (write (codes "EFER") enable_attr (codes "81"))
    ∷ []

abbrev cr0_write : EventInfo
cr0_write = record message_event { event_data = cpu reg CpuReg.cr0 CpuReg.rax }

abbrev efer_write : EventInfo
efer_write = record message_event { event_data = cpu msr CpuReg.rax CpuReg.rax }

abbrev efer_env : Env
efer_env = record (sample_env true) {
  read_register = λ t r. (success, elim r [ gp_rcx ↦ 0xc0000080 | _ ↦ 1 ]);
}

-- The message for a sticky policy.
abbrev asked : ℕ → ℕ → ℕ → ℕ → PolicyMessage
asked id sticky_val mask cpus = record sample_message {
  command = policy_entry_enable;
  policy_data = record {
    resource_id = id;
    r_action = 0;
    w_action = 0x81;
    x_action = 0;
    sticky_val = sticky_val;
    resource_info = record { mask = mask; cpu_mask_1 = cpus; cpu_mask_2 = cpus };
  };
}

-- The driver has asked for both policies, and is about to free the second message. The guest has written
-- CR0 before the first message was sent.
abbrev steps : List Step
steps =
    driver (hypercall (asked resource_id_msr_efer 0 0 0))
    ∷ driver (kzalloc 0x1000)
    ∷ driver (kzalloc 0x1000)
    ∷ driver (kzalloc 0x1000)
    ∷ driver kfree
    ∷ driver (hypercall (asked resource_id_cr0_wp 0x81 0x10000 (2 ^ 64 - 1)))
    ∷ guest (sample_env true) cr0_write
    ∷ driver (kzalloc 0x1000)
    ∷ driver (kzalloc 0x1000)
    ∷ driver (kzalloc 0x1000)
    ∷ []

now : IsMoment kernel session steps
unfolding run_tree eq_ignoring_case calls_in
now = record {
  later = kfree ∷ [];
  calls = refl;
  accesses = (tt, (tt, (tt, (tt, (tt, (tt, (tt, (tt, (tt, (tt, tt))))))))));
}

policies-run_steps_example :
    policies (handler_at (sample_env true) message_event (λ h. cleared) [] steps)
    ≡ replay (sample_env true) (sent (calls_in steps)) no_policies
policies-run_steps_example =
    policies-run_steps kernel (sample_env true) message_event (λ h. cleared) [] 0x2000 refl
      (λ t. refl) session steps now

operands :
    (crx_operands cr0
      (sample_env true)
      CpuReg.rax
      (entering (handler_at (sample_env true) message_event (λ h. cleared) [] steps))).0
    ≡ some (gp_rax, (0x10001, 1))
unfolding crx_operands read_operands read_guest_reg get_ikgt_vmcs_guest_reg_id
operands = refl

of_cr0 : cr0.is_crx_entry (entry_named resource_id_cr0_wp) ≡ true
unfolding is_cr0_entry
of_cr0 = refl

run_steps-Answers_example :
    Answers
      (sample_env true)
      gp_rax
      0x10001
      1
      (cr0-IsCrx.position resource_id_cr0_wp)
      (sent_policy (sample_env true) steps resource_id_cr0_wp)
      (handler_report_event
        (sample_env true)
        cr0_write
        (handler_at (sample_env true) message_event (λ h. cleared) [] steps))
run_steps-Answers_example =
    run_steps-Answers kernel (sample_env true) message_event (λ h. cleared) [] 0x2000 refl
      (λ t. refl) session steps now cr0 cr0-IsCrx CpuReg.cr0 cr0-IsHandled resource_id_cr0_wp of_cr0
      (sample_env true) cr0_write CpuReg.rax gp_rax 0x10001 1 refl operands (omega arith)

efer_known : res_id_to_msr resource_id_msr_efer ≢ ia32_msr_invalid
unfolding res_id_to_msr find_msr
efer_known = omega arith

efer-IsWrmsr : (t : Trace) → IsWrmsr efer_env t (res_id_to_msr resource_id_msr_efer) 1 1
unfolding res_id_to_msr find_msr
efer-IsWrmsr t = record {
  memory = λ later. refl;
  answers = λ later r. refl;
  index = λ later. refl;
  low = λ later. refl;
  high = λ later. refl;
}

run_steps-answer_by_example :
    (handler_report_event efer_env efer_write
      (handler_at (sample_env true) message_event (λ h. cleared) [] steps)).response
    ≡ answer_by (sent_policy (sample_env true) steps resource_id_msr_efer) (join 1 1)
run_steps-answer_by_example =
    run_steps-answer_by kernel (sample_env true) message_event (λ h. cleared) [] 0x2000 refl
      (λ t. refl) session steps now efer_env efer_write resource_id_msr_efer 1 1 (omega arith)
      efer_known CpuReg.rax CpuReg.rax refl
      (efer-IsWrmsr (handler_at (sample_env true) message_event (λ h. cleared) [] steps).trace)

abbrev first_log : AgentLog
first_log = record {
  log_record_seq_num = none;
  num_of_cpus = 0;
  log_data_gva = 0;
  is_logging_running = false;
}

-- The handler before any message.
abbrev initialised : Machine
unfolding boot
initialised = record (boot (λ h. cleared) []) { init_status = true }

received-init_agent_example :
    (received
      (sample_env true)
      message_event
      (init_agent Driver.kernel true sample_message first_log []).1
      initialised).log
    ≡ (if numbers_at Driver.kernel true sample_message first_log [] == 0
        then initialised.log
        else if log_address Driver.kernel true sample_message first_log == 0
        then initialised.log
        else log_told
            (sample_env true)
            message_event
            0x2000
            (log_address Driver.kernel true sample_message first_log)
            (log_bytes Driver.kernel)
            initialised)
unfolding initialised
received-init_agent_example =
    received-init_agent (sample_env true) message_event 0x2000 refl Driver.kernel true
      sample_message first_log initialised refl
