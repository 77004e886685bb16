-- ===== src/Tests/Driver.antt =====
-- The driver's nodes and its log page, and the delivery of a policy.
use ikgt_usage.Base.{◌^◌, true, some}
use ikgt_usage.Base.Text.{codes}
use ikgt_usage.PolicyCommon.Resource.{resource_id_cr0_wp}
use ikgt_usage.Driver.Kernel.{Kernel}
use ikgt_usage.Driver.Tables.{NameValueMap, row}
use ikgt_usage.Driver.Config.{Cfg}
use ikgt_usage.Driver.Log.{dump_log}
use ikgt_usage.Driver.Log.Page.{PageFits, dump_log-PageFits}
use ikgt_usage.Tests.{cleared}

abbrev pub kernel : Kernel
kernel = record {
  kzalloc_address = λ t. 0x1000;
  hypercall_succeeds = λ t m. true;
  register_succeeds = λ t. true;
  kstrtoul = λ text radix. some 1;
  num_online_cpus = 2;
}

abbrev pub locked_node : Cfg
locked_node = record {
  name = codes "wp";
  enable = true;
  locked = true;
  write = 0x11;
  sticky_value = 1;
}

dump_log-PageFits_example : PageFits (dump_log cleared 2 (λ i. 0))
dump_log-PageFits_example = dump_log-PageFits cleared 2 (λ i. 0)

abbrev pub wp_row : NameValueMap
wp_row = row (codes "WP") (2 ^ 16) resource_id_cr0_wp
