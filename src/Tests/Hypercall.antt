-- ===== src/Tests/Hypercall.antt =====
-- A write of the number 1 to the `enable` of the node of CR0.WP, up to the handler's table.
use ikgt_usage.Base.{◌≡◌, refl, arith, some, true, [], if◌then◌else◌, ◌==◌}
use ikgt_usage.Base.Text.{codes, eq_ignoring_case}
use ikgt_usage.PolicyCommon.Resource.{resource_id_cr0_wp}
use ikgt_usage.Handler.Machine.{Machine, boot}
use ikgt_usage.Handler.Table.{empty_table}
use ikgt_usage.Handler.Table.Laws.{empty_table-IsValid}
use ikgt_usage.Driver.Config.{valid_attr, store_enable, cr0_node}
use ikgt_usage.Driver.Nodes.Enable.{RowOf}
use ikgt_usage.System.Delivery.{policy_of}
use ikgt_usage.System.Hypercall.{received, wanted, received-store_enable}
use ikgt_usage.Tests.{cleared, sample_env, message_event}
use ikgt_usage.Tests.Driver.{kernel, wp_row}
use ikgt_usage.Tests.Outcomes.{open_node}

abbrev running : Machine
unfolding boot
running = record (boot (λ h. cleared) []) { init_status = true; table = some empty_table }

abbrev wp_of_cr0 : RowOf cr0_node.rows open_node.name
unfolding valid_attr eq_ignoring_case
wp_of_cr0 = record { index = 6; row = wp_row; found = refl; there = refl; named = refl }

received-store_enable_example :
    policy_of
      (received
        (sample_env true)
        message_event
        (store_enable kernel cr0_node open_node (codes "1") []).1
        running)
      resource_id_cr0_wp
    ≡ (if wp_of_cr0.row.res_id == resource_id_cr0_wp
        then wanted (sample_env true) cr0_node wp_of_cr0.row open_node 1
        else policy_of running resource_id_cr0_wp)
unfolding running wp_of_cr0
received-store_enable_example =
    received-store_enable kernel (sample_env true) message_event cr0_node open_node (codes "1") 1
      0x2000 wp_of_cr0 empty_table running resource_id_cr0_wp refl refl (omega arith) refl refl refl
      refl refl empty_table-IsValid.0 empty_table-IsValid.1 (omega arith, omega arith) (omega arith)
