-- ===== src/Tests.antt =====
-- The theorems at concrete inputs: an environment, a policy and exits that the tests share.
pub mod Ring
pub mod Reader
pub mod Handler
pub mod Driver
pub mod Outcomes
pub mod Hypercall
pub mod Moments
pub mod Policies
pub mod Protection
pub mod ProtectionMsr
pub mod Session
pub mod Tree
use ikgt_usage.Base.{ℕ, ◌*◌, ◌+◌, ◌^◌, Bool, true, List, []}
use ikgt_usage.PolicyCommon.{LogBuffer, PolicyMessage}
use ikgt_usage.PolicyCommon.Resource.{resource_id_cr0_wp}
use ikgt_usage.Handler.Entry.{PolicyEntry}
use ikgt_usage.Handler.Table.{free_entry}
use ikgt_usage.Handler.Api.{Env, EventInfo, Status, success, VmcsReg, guest_cr0, gp_rcx, Trace, msg}

abbrev pub cleared : LogBuffer
cleared i = record { seq_num = 0; reason = 0; valid = 0; qualification = 0; rip = 0; gva = 0 }

-- A policy that keeps CR0.WP set.
abbrev pub wp_entry : PolicyEntry
wp_entry = record {
  resource_id = resource_id_cr0_wp;
  flags = 0;
  access_count = 0;
  r_action = 0;
  w_action = 0x11;
  x_action = 0;
  sticky_val = 1;
  resource_info = record { mask = 0x10000; cpu_mask_1 = 1; cpu_mask_2 = 0 };
}

abbrev pub sample_message : PolicyMessage
sample_message = record {
  command = 2;
  count = 1;
  policy_data = record {
    resource_id = 0;
    r_action = 0;
    w_action = 0;
    x_action = 0;
    sticky_val = 0;
    resource_info = record { mask = 0; cpu_mask_1 = 0; cpu_mask_2 = 0 };
  };
  log_param = record { log_addr = 0; log_size = 0 };
  debug_parameter = 0;
}

-- A hypervisor in which each call succeeds but for the allocations, which do as `memory_left` says. RCX
-- has a bit above the lower half, and each message makes the policy immutable.
abbrev pub sample_env : Bool → Env
sample_env memory_left = record {
  malloc_succeeds = λ t. memory_left;
  read_register = λ t r. elim r [
    | guest_cr0 ↦ (success, 0x10001)
    | gp_rcx ↦ (success, 2 ^ 32 + 0x174)
    | _ ↦ (success, 1)
  ];
  write_register = λ t r v. success;
  translate_gva = λ t a. (success, a);
  translate_gpa = λ t v a. (success, a);
  set_permissions = λ t items. success;
  monitor_cpu = λ t p. success;
  monitor_msr = λ t i b. success;
  vmexit_reason = λ t. record { reason = 28; qualification = 0; gva = 0 };
  copy_message = λ t a. (success, sample_message);
  stack_entry = free_entry;
  addrinfo_max_count = 8;
  debug = true;
}

abbrev pub message_event : EventInfo
message_event = record {
  thread_id = 0;
  view_handle = 0;
  ia32_reg_rip = 0x1000;
  event_data = msg 0x2000;
}
