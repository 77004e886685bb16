-- ===== src/System/Hypercall.antt =====
-- A write to `enable` of a configfs node, from driver/cr0.c, driver/cr4.c or driver/msr.c through the
-- hypercall to handler/handler.c, handler/message.c and the table of handler/policy.c.
use ikgt_usage.Base.{
  ℕ, ◌≡◌, ◌≢◌, ap, ◌∙◌, true, false, not, List, [], ◌∷◌, Option, none, some, arith, ◌==◌,
  if◌then◌else◌,
}
use native.Mathlib.Decide.{ℕ_discrete}
use ikgt_usage.PolicyCommon.{PolicyMessage}
use ikgt_usage.PolicyCommon.Resource.{resource_id_unknown}
use ikgt_usage.Handler.Entry.{PolicyEntry, PolicyTable}
use ikgt_usage.Handler.Api.{Env, EventInfo, success, msg, allow, malloc, copy_gva_to_hva}
use ikgt_usage.Handler.Machine.{Machine}
use ikgt_usage.Handler.Table.Lookup.{IsValid}
use ikgt_usage.Handler.Table.Room.{IsResource, InRange}
use ikgt_usage.Handler.Events.{
  receive_message, handle_msg_event, dispatch_event, handle_command, handler_report_event,
}
use ikgt_usage.Driver.Tables.{NameValueMap}
use ikgt_usage.Driver.Kernel.{Trace, Kernel, Call, kzalloc, kfree, hypercall}
use ikgt_usage.Driver.Config.{Cfg, Node, policy_message, policy_set, store_enable}
use ikgt_usage.Driver.Nodes.Enable.{RowOf}
use ikgt_usage.System.Delivery.{policy_of, entry_of, policy_of-enable, policy_of-disable}

-- The hypervisor when the guest has sent `message`: the copy of it succeeds.
abbrev pub delivering : Env → PolicyMessage → Env
delivering env message = record env { copy_message = λ t a. (success, message) }

unfoldable pub receive : Env → EventInfo → Call → Machine → Machine
receive env info (hypercall message) m = handler_report_event (delivering env message) info m
receive env info _ m = m

-- The handler after the calls of the driver, of which each hypercall is an event.
unfoldable pub received : Env → EventInfo → Trace → Machine → Machine
unfolding receive
received env info [] m = m
received env info (c ∷ t) m = receive env info c (received env info t m)

-- The machine as it reaches the switch on the command.
abbrev pub at_command : Env → ℕ → Machine → Machine
at_command env gva m = record m {
  response = allow;
  trace = copy_gva_to_hva gva ∷ malloc (env.malloc_succeeds m.trace) ∷ m.trace;
}

delivered :
    (env : Env) (info : EventInfo) (message : PolicyMessage) (gva : ℕ) (m : Machine) (j : ℕ)
    → m.init_status ≡ true
    → info.event_data ≡ msg gva
    → env.malloc_succeeds m.trace ≡ true
    → policy_of (handler_report_event (delivering env message) info m) j
      ≡ policy_of (handle_command (delivering env message) info message (at_command env gva m)) j
unfolding handler_report_event dispatch_event handle_msg_event receive_message policy_of
delivered env info message gva m j i d a = ground (arith, i, d, a)

-- What a node asks for when `value` is written to `enable`.
abbrev pub wanted : Env → Node → NameValueMap → Cfg → ℕ → Option PolicyEntry
wanted env node r cfg value = if value == 0 then none else some (entry_of env node r cfg)

commanded :
    (env : Env) (info : EventInfo) (node : Node) (r : NameValueMap) (cfg : Cfg) (value : ℕ)
    (t : PolicyTable) (m : Machine) (j : ℕ)
    → m.immutable ≡ false
    → m.table ≡ some t
    → IsValid t
    → InRange t.policy_entry
    → IsResource r.res_id
    → j ≢ resource_id_unknown
    → policy_of (handle_command env info (policy_message node r cfg (not (value == 0))) m) j
      ≡ (if r.res_id == j then wanted env node r cfg value else policy_of m j)
commanded env info node r cfg value t m j i h v in_range named ne = elim (ℕ_discrete value 0) [
  | yes z ↦ ground (arith, z, policy_of-disable env info node r cfg t m j i h v (omega arith) ne)
  | no nz ↦ ground (arith, nz, policy_of-enable env info node r cfg t m j i h v in_range named ne)
]

calls :
    (kernel : Kernel) (node : Node) (cfg : Cfg) (page : List ℕ) (value : ℕ)
    (r : RowOf node.rows cfg.name)
    → kernel.kstrtoul page 0 ≡ some value
    → cfg.locked ≡ false
    → kernel.kzalloc_address [] ≢ 0
    → (store_enable kernel node cfg page []).1
      ≡ kfree
        ∷ hypercall (policy_message node r.row cfg (not (value == 0)))
        ∷ kzalloc (kernel.kzalloc_address [])
        ∷ []
unfolding store_enable policy_set
calls kernel node cfg page value r e l nz = ground (arith, e, l, nz, r.found, r.there)

-- A write of a number to `enable` of a node that is not locked reaches the handler. If the driver and the
-- handler have memory for the message, the hypervisor delivers it, and the handler is running with
-- policies that are not immutable and a valid table, with every slot free or a resource's, then after the
-- driver's calls the handler has the node's policy for the resource of the row with the node's name if the
-- number is not 0, and none for it if it is 0. Any other resource keeps its policy.
pub received-store_enable :
    (kernel : Kernel) (env : Env) (info : EventInfo) (node : Node) (cfg : Cfg) (page : List ℕ)
    (value gva : ℕ) (r : RowOf node.rows cfg.name) (t : PolicyTable) (m : Machine) (j : ℕ)
    → kernel.kstrtoul page 0 ≡ some value
    → cfg.locked ≡ false
    → kernel.kzalloc_address [] ≢ 0
    → env.malloc_succeeds m.trace ≡ true
    → info.event_data ≡ msg gva
    → m.init_status ≡ true
    → m.immutable ≡ false
    → m.table ≡ some t
    → IsValid t
    → InRange t.policy_entry
    → IsResource r.row.res_id
    → j ≢ resource_id_unknown
    → policy_of (received env info (store_enable kernel node cfg page []).1 m) j
      ≡ (if r.row.res_id == j then wanted env node r.row cfg value else policy_of m j)
unfolding received receive policy_of
received-store_enable kernel env info node cfg page value gva r t m j e l nz a d i fixed h v
      in_range named ne =
    let message : PolicyMessage = policy_message node r.row cfg (not (value == 0)) in
    ap (λ c. policy_of (received env info c m) j) (calls kernel node cfg page value r e l nz)
    ∙ (delivered env info message gva m j i d a
        ∙ commanded (delivering env message) info node r.row cfg value t (at_command env gva m) j
            fixed h v in_range named ne)
