-- ===== src/Handler/Policies.antt =====
-- What the table and the immutable flag of handler/policy.c promise, as a function from resources to
-- policies that the messages of handler/message.c replay on.
pub mod Commands
pub mod Sequences
pub mod Tables
use ikgt_usage.Base.{
  ℕ, ◌≡◌, ◌≢◌, ap, ◌∙◌, Bool, true, ◌&&◌, List, [], ◌∷◌, Option, none, some, ◌==◌, if◌then◌else◌,
}
use ikgt_usage.PolicyCommon.{
  PolicyUpdateRec, PolicyMessage, policy_entry_enable, policy_entry_disable, policy_make_immutable,
  policy_init_log, policy_debug_command,
}
use ikgt_usage.PolicyCommon.Resource.{resource_id_unknown}
use ikgt_usage.Handler.Entry.{PolicyEntry, PolicyTable}
use ikgt_usage.Handler.Api.{EventInfo, EventData, msg, Env, Trace, malloc, is_success}
use ikgt_usage.Handler.Machine.{Machine}
use ikgt_usage.Handler.Table.Lookup.{lookup}
use ikgt_usage.Handler.Table.Room.{IsResource}
use ikgt_usage.Handler.Events.{handler_report_event}
use ikgt_usage.Handler.Frame.{rules, Keeps}

-- The policy of each resource, without its access count, and whether they are still open to change.
pub record Policies : Type 0 where
  pub policy : ℕ → Option PolicyEntry
  pub immutable : Bool

-- The policies in a table.
abbrev pub policies_in : Option PolicyTable → ℕ → Option PolicyEntry
policies_in o j =
    if j == resource_id_unknown
    then none
    else elim o [ none ↦ none | some t ↦ lookup j t.policy_entry ]

-- The policies of a machine.
abbrev pub policies : Machine → Policies
policies m = record { policy = policies_in (rules m); immutable = m.immutable }

-- The policy in an update, with the flags that the handler's stack has.
abbrev pub policy_in : Env → PolicyUpdateRec → PolicyEntry
policy_in env update = record {
  resource_id = update.resource_id;
  flags = env.stack_entry.flags;
  access_count = 0;
  r_action = update.r_action;
  w_action = update.w_action;
  x_action = update.x_action;
  sticky_val = update.sticky_val;
  resource_info = update.resource_info;
}

-- A function, changed at one identifier.
abbrev pub change : ℕ → Option PolicyEntry → (ℕ → Option PolicyEntry) → ℕ → Option PolicyEntry
change id new f j = if id == j then new else f j

-- The policies with that of one resource changed, unless they are immutable or it is no resource.
unfoldable pub set_policy : ℕ → Option PolicyEntry → Policies → Policies
set_policy id new p =
    if p.immutable
    then p
    else if id == resource_id_unknown
    then p
    else record p { policy = change id new p.policy }

unfoldable pub fix_policies : Policies → Policies
fix_policies p = record p { immutable = true }

-- What a message does to the policies.
unfoldable pub apply_message : Env → PolicyMessage → Policies → Policies
unfolding set_policy fix_policies
apply_message env message p =
    if message.command == policy_init_log
    then p
    else if message.command == policy_entry_enable
    then set_policy message.policy_data.resource_id (some (policy_in env message.policy_data)) p
    else if message.command == policy_entry_disable
    then set_policy message.policy_data.resource_id none p
    else if message.command == policy_make_immutable
    then fix_policies p
    else if env.debug && message.command == policy_debug_command
    then (if message.debug_parameter == 400 then fix_policies p else p)
    else p

-- The message that an event brings to the handler: there is none if the event is no message, or if the
-- handler has no memory for it or cannot copy it.
unfoldable pub message_in : Env → EventData → Trace → Option PolicyMessage
message_in env (msg gva) trace =
    let t : Trace = malloc (env.malloc_succeeds trace) ∷ trace in
    if env.malloc_succeeds trace && is_success (env.copy_message t gva).0
    then some (env.copy_message t gva).1
    else none
message_in env _ trace = none

unfoldable pub message_of : Env → EventInfo → Machine → Option PolicyMessage
unfolding message_in
message_of env info m = message_in env info.event_data m.trace

abbrev pub received : Option PolicyMessage → List PolicyMessage → List PolicyMessage
received none messages = messages
received (some message) messages = message ∷ messages

-- The messages that a sequence of events brings to the handler, in order.
unfoldable pub messages_of : Env → List EventInfo → Machine → List PolicyMessage
unfolding message_of
messages_of env [] m = []
messages_of env (e ∷ es) m =
    received (message_of env e m) (messages_of env es (handler_report_event env e m))

unfoldable pub replay : Env → List PolicyMessage → Policies → Policies
unfolding apply_message
replay env [] p = p
replay env (message ∷ messages) p = replay env messages (apply_message env message p)

-- The hypervisor delivers only updates of resources, or of none.
abbrev pub NamesResources : Env → Type 0
NamesResources env =
    (t : Trace) (gva : ℕ)
    → (env.copy_message t gva).1.policy_data.resource_id ≢ resource_id_unknown
    → IsResource (env.copy_message t gva).1.policy_data.resource_id

pub policies-Keeps : (m m' : Machine) → Keeps m m' → policies m' ≡ policies m
policies-Keeps m m' k =
    ap (λ o. record { policy = policies_in o; immutable = m'.immutable }) k.rules_kept
    ∙ ap (λ b. record { policy = policies_in (rules m); immutable = b }) k.immutable_kept
