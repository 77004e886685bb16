-- ===== src/Tests/Outcomes.antt =====
-- The start of the driver, a write to a node, the line of a record and the dump of the table.
use ikgt_usage.Base.{◌≡◌, ◌++◌, ◌∷◌, [], none, arith, true, false}
use ikgt_usage.Base.Text.{codes}
use ikgt_usage.Handler.Entry.{PolicyTable}
use ikgt_usage.Handler.Table.{empty_table, policy_entry_add}
use ikgt_usage.Handler.Table.Laws.{empty_table-IsValid, add-IsValid}
use ikgt_usage.Handler.Debug.{policy_dump, dump_header, words}
use ikgt_usage.Handler.Debug.Laws.{used_lines, policy_dump-eq}
use ikgt_usage.Driver.Config.{Cfg, cr0_node}
use ikgt_usage.Driver.Agent.{AgentLog}
use ikgt_usage.Driver.Agent.Outcome.{Outcome, init_agent-Outcome}
use ikgt_usage.Driver.Nodes.Enable.{EnableOutcome, store_enable-EnableOutcome}
use ikgt_usage.Driver.Log.{format_record}
use ikgt_usage.Driver.Log.Parse.{read_line, read_line-format_record}
use ikgt_usage.Ring.{entry}
use ikgt_usage.Tests.{wp_entry, sample_message}
use ikgt_usage.Tests.Driver.{kernel}

abbrev stopped : AgentLog
stopped = record {
  log_record_seq_num = none;
  num_of_cpus = 0;
  log_data_gva = 0;
  is_logging_running = false;
}

init_agent-Outcome_example : Outcome kernel true sample_message stopped []
init_agent-Outcome_example = init_agent-Outcome kernel true sample_message stopped []

abbrev pub open_node : Cfg
open_node = record {
  name = codes "wp";
  enable = false;
  locked = false;
  write = 0x81;
  sticky_value = 1;
}

store_enable-EnableOutcome_example : EnableOutcome kernel cr0_node open_node (codes "1") []
store_enable-EnableOutcome_example =
    store_enable-EnableOutcome kernel cr0_node open_node (codes "1") []

read_line-format_record_example :
    read_line (format_record 3 (entry 5 0xffff 28 0x10 0x2000) ++ codes "4,") ≡ (
      record {
        cpu_index = 3;
        seq_num = 5;
        reason = 28;
        qualification = 0x10;
        rip = 0xffff;
        gva = 0x2000;
      },
      codes "4,",
    )
read_line-format_record_example =
    read_line-format_record 3 (entry 5 0xffff 28 0x10 0x2000) (codes "4,") (omega arith) (record {
      seq_num = omega arith;
      reason = omega arith;
      qualification = omega arith;
      rip = omega arith;
      gva = omega arith;
    })

abbrev wp_table : PolicyTable
wp_table = policy_entry_add wp_entry empty_table

policy_dump-eq_example :
    policy_dump wp_table true
    ≡ dump_header wp_table true ++ (used_lines 0 wp_table.policy_entry ++ (words "\n" ∷ []))
policy_dump-eq_example =
    policy_dump-eq wp_table true
      (add-IsValid wp_entry empty_table (omega arith) empty_table-IsValid.0)
