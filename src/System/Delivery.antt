-- ===== src/System/Delivery.antt =====
-- A policy from the driver's node to the handler's table.
use ikgt_usage.Base.{
  ℕ, ◌≡◌, ◌≢◌, ap, ◌∙◌, sym, true, false, Option, none, some, arith, ◌==◌, if◌then◌else◌,
}
use ikgt_usage.PolicyCommon.Resource.{resource_id_unknown}
use ikgt_usage.Handler.Entry.{PolicyEntry, PolicyTable}
use ikgt_usage.Handler.Api.{Env, EventInfo}
use ikgt_usage.Handler.Machine.{Machine}
use ikgt_usage.Handler.Table.{policy_entry_add, policy_entry_del, policy_msg_to_entry}
use ikgt_usage.Handler.Table.Lookup.{lookup, IsValid}
use ikgt_usage.Handler.Table.Room.{IsResource, InRange}
use ikgt_usage.Handler.Table.Laws.{lookup-add, lookup-del}
use ikgt_usage.Handler.Policy.{
  policy_sanity_check, policy_msg_add_to, policy_msg_add, handle_msg_policy_enable,
  policy_msg_del_to, policy_msg_del, handle_msg_policy_disable,
}
use ikgt_usage.Handler.Events.{handle_command}
use ikgt_usage.Driver.Tables.{NameValueMap}
use ikgt_usage.Driver.Config.{Cfg, Node, policy_message}

-- The policy that a machine holds for a resource.
unfoldable pub policy_of : Machine → ℕ → Option PolicyEntry
policy_of m id = elim m.table [ none ↦ none | some t ↦ lookup id t.policy_entry ]

-- The entry that the node's attributes make, with the flags that the handler's stack has.
abbrev pub entry_of : Env → Node → NameValueMap → Cfg → PolicyEntry
entry_of env node r cfg = record {
  resource_id = r.res_id;
  flags = env.stack_entry.flags;
  access_count = 0;
  r_action = 0;
  w_action = cfg.write;
  x_action = 0;
  sticky_val = cfg.sticky_value;
  resource_info = (policy_message node r cfg true).policy_data.resource_info;
}

enabled :
    (env : Env) (info : EventInfo) (node : Node) (r : NameValueMap) (cfg : Cfg) (t : PolicyTable)
    (m : Machine)
    → m.immutable ≡ false
    → m.table ≡ some t
    → r.res_id ≢ resource_id_unknown
    → (handle_command env info (policy_message node r cfg true) m).table
      ≡ some (policy_entry_add (entry_of env node r cfg) t)
unfolding handle_command policy_message handle_msg_policy_enable policy_sanity_check policy_msg_add
    policy_msg_add_to policy_msg_to_entry
enabled env info node r cfg t m i h ne = ground (arith, i, h, ne)

disabled :
    (env : Env) (info : EventInfo) (node : Node) (r : NameValueMap) (cfg : Cfg) (t : PolicyTable)
    (m : Machine)
    → m.immutable ≡ false
    → m.table ≡ some t
    → r.res_id ≢ resource_id_unknown
    → (handle_command env info (policy_message node r cfg false) m).table
      ≡ some (policy_entry_del (entry_of env node r cfg) t)
unfolding handle_command policy_message handle_msg_policy_disable policy_sanity_check policy_msg_del
    policy_msg_del_to policy_msg_to_entry
disabled env info node r cfg t m i h ne = ground (arith, i, h, ne)

table_policy : Option PolicyTable → ℕ → Option PolicyEntry
table_policy o id = elim o [ none ↦ none | some t ↦ lookup id t.policy_entry ]

-- While the policy is not immutable and the table is valid, with every slot free or a resource's, the
-- message of the node of a resource, switched on, leaves the handler with the node's policy for that
-- resource: its write action, its sticky value and its masks. Any other resource keeps its policy.
pub policy_of-enable :
    (env : Env) (info : EventInfo) (node : Node) (r : NameValueMap) (cfg : Cfg) (t : PolicyTable)
    (m : Machine) (j : ℕ)
    → m.immutable ≡ false
    → m.table ≡ some t
    → IsValid t
    → InRange t.policy_entry
    → IsResource r.res_id
    → j ≢ resource_id_unknown
    → policy_of (handle_command env info (policy_message node r cfg true) m) j
      ≡ (if r.res_id == j then some (entry_of env node r cfg) else policy_of m j)
unfolding policy_of table_policy
policy_of-enable env info node r cfg t m j i h v in_range named ne =
    ap (λ o. table_policy o j) (enabled env info node r cfg t m i h (omega arith))
    ∙ lookup-add (entry_of env node r cfg) t j v in_range named ne
    ∙ ap (λ o. if r.res_id == j then some (entry_of env node r cfg) else table_policy o j) (sym h)

-- While the policy is not immutable and the table is valid, the message of a node that is switched off
-- leaves the handler without a policy for the node's resource. Any other resource keeps its policy.
pub policy_of-disable :
    (env : Env) (info : EventInfo) (node : Node) (r : NameValueMap) (cfg : Cfg) (t : PolicyTable)
    (m : Machine) (j : ℕ)
    → m.immutable ≡ false
    → m.table ≡ some t
    → IsValid t
    → r.res_id ≢ resource_id_unknown
    → j ≢ resource_id_unknown
    → policy_of (handle_command env info (policy_message node r cfg false) m) j
      ≡ (if r.res_id == j then none else policy_of m j)
unfolding policy_of table_policy
policy_of-disable env info node r cfg t m j i h v named ne =
    ap (λ o. table_policy o j) (disabled env info node r cfg t m i h named)
    ∙ lookup-del (entry_of env node r cfg) t j v named ne
    ∙ ap (λ o. if r.res_id == j then none else table_policy o j) (sym h)
