-- ===== src/Handler/Invariant/Immutable.antt =====
-- The events on a machine whose policy is immutable: handler/policy.c and handler/handler.c.
use ikgt_usage.Base.{
  ◌≡◌, refl, ap, Option, none, some, ◌∙◌, true, List, [], ◌∷◌, if_both, ℕ, ◌==◌, ◌&&◌, arith,
}
use ikgt_usage.PolicyCommon.{
  PolicyMessage, policy_init_log, policy_entry_enable, policy_entry_disable, policy_make_immutable,
  policy_debug_command,
}
use ikgt_usage.Handler.Api.{
  EventInfo, EventData, mem, cpu, msg, other_event, Env, allow, Status, is_success, call,
  copy_gva_to_hva, ikgt_malloc, ikgt_free,
}
use ikgt_usage.Handler.Entry.{PolicyTable}
use ikgt_usage.Handler.Machine.{Machine}
use ikgt_usage.Handler.Policy.{
  handle_msg_policy_enable, handle_msg_policy_disable, handle_msg_policy_make_immutable,
  policy_debug,
}
use ikgt_usage.Handler.Events.{
  handle_command, receive_message, handle_msg_event, dispatch_event, handler_report_event,
  report_events,
}
use ikgt_usage.Handler.Frame.{rules, rules_of, Keeps}
use ikgt_usage.Handler.Frame.Cpu.{handle_memory_event-Keeps, handle_cpu_event-Keeps}
use ikgt_usage.Handler.Invariant.Messages.{start_log-Keeps}

-- From `m` to the immutable machine `m'` with the same policies.
pub record IsFrozen (m m' : Machine) : Type 0 where
  pub immutable : m'.immutable ≡ true
  pub same_rules : rules m' ≡ rules m

of_Keeps : (m a b : Machine) → Keeps a b → IsFrozen m a → IsFrozen m b
of_Keeps m a b k f = record {
  immutable = k.immutable_kept ∙ f.immutable;
  same_rules = k.rules_kept ∙ f.same_rules;
}

-- Machines that agree on the two fields.
same_fields :
    (m a b : Machine) → b.immutable ≡ a.immutable → b.table ≡ a.table → IsFrozen m a → IsFrozen m b
unfolding rules
same_fields m a b i t f = record {
  immutable = i ∙ f.immutable;
  same_rules = ap rules_at t ∙ f.same_rules;
}
  where
    rules_at : Option PolicyTable → Option PolicyTable
    rules_at o = elim o [ none ↦ none | some t ↦ some (rules_of t) ]

module _ (start : Machine) where
  policy_debug-IsFrozen :
      (parameter : ℕ) (m : Machine) → IsFrozen start m → IsFrozen start (policy_debug parameter m)
  unfolding policy_debug handle_msg_policy_make_immutable
  policy_debug-IsFrozen parameter m f =
      same_fields start m (policy_debug parameter m) (ground (arith, f.immutable))
        (ground (arith, f.immutable)) f

  handle_command-IsFrozen :
      (env : Env) (info : EventInfo) (message : PolicyMessage) (m : Machine)
      → IsFrozen start m
      → IsFrozen start (handle_command env info message m)
  unfolding handle_command handle_msg_policy_enable handle_msg_policy_disable
      handle_msg_policy_make_immutable
  handle_command-IsFrozen env info message m f =
      if_both (IsFrozen start) (message.command == policy_init_log) _ _
        (of_Keeps start m _ (start_log-Keeps env info message.log_param m) f)
        (if_both (IsFrozen start) (message.command == policy_entry_enable) _ _ (simp f.immutable f)
          (if_both (IsFrozen start) (message.command == policy_entry_disable) _ _
            (simp f.immutable f)
            (if_both (IsFrozen start) (message.command == policy_make_immutable) _ _
              (simp f.immutable f)
              (if_both (IsFrozen start) (env.debug && message.command == policy_debug_command) _ _
                (policy_debug-IsFrozen message.debug_parameter m f) f))))

  receive_message-IsFrozen :
      (env : Env) (info : EventInfo) (answer : Status × PolicyMessage) (m : Machine)
      → IsFrozen start m
      → IsFrozen start (receive_message env info answer m)
  unfolding receive_message
  receive_message-IsFrozen env info (status, message) m f =
      if_both (IsFrozen start) (is_success status) (handle_command env info message m) m
        (handle_command-IsFrozen env info message m f) f

  handle_msg_event-IsFrozen :
      (env : Env) (info : EventInfo) (gva : ℕ) (m : Machine)
      → IsFrozen start m
      → IsFrozen start (handle_msg_event env info gva m)
  unfolding handle_msg_event
  handle_msg_event-IsFrozen env info gva m f =
      let allocated = ikgt_malloc env m.trace in
      let answer = call (λ t. env.copy_message t gva) (copy_gva_to_hva gva) allocated.1 in
      let handled = receive_message env info answer.0 (record m { trace = answer.1 }) in
      if_both (IsFrozen start) allocated.0
        (record handled { trace = (ikgt_free env handled.trace).1 })
        (record m { trace = allocated.1 })
        (same_fields start handled _ refl refl (
          receive_message-IsFrozen env info answer.0 (record m { trace = answer.1 })
            (same_fields start m _ refl refl f)))
        (same_fields start m _ refl refl f)

  dispatch_event-IsFrozen :
      (env : Env) (info : EventInfo) (event_data : EventData) (m : Machine)
      → IsFrozen start m
      → IsFrozen start (dispatch_event env info event_data m)
  unfolding dispatch_event
  dispatch_event-IsFrozen env info (mem perms attempt) m f =
      of_Keeps start m _ (handle_memory_event-Keeps env info perms attempt m) f
  dispatch_event-IsFrozen env info (cpu op event_reg operand) m f =
      of_Keeps start m _ (handle_cpu_event-Keeps env info op event_reg operand m) f
  dispatch_event-IsFrozen env info (msg gva) m f = handle_msg_event-IsFrozen env info gva m f
  dispatch_event-IsFrozen env info other_event m f = f

  handler_report_event-IsFrozen :
      (env : Env) (info : EventInfo) (m : Machine)
      → IsFrozen start m
      → IsFrozen start (handler_report_event env info m)
  unfolding handler_report_event
  handler_report_event-IsFrozen env info m f =
      let answered : Machine = record m { response = allow } in
      let f' = same_fields start m answered refl refl f in
      if_both (IsFrozen start) m.init_status (dispatch_event env info info.event_data answered)
        answered (dispatch_event-IsFrozen env info info.event_data answered f') f'

  events-IsFrozen :
      (env : Env) (events : List EventInfo) (m : Machine)
      → IsFrozen start m
      → IsFrozen start (report_events env events m)
  unfolding report_events
  events-IsFrozen env [] m f = f
  events-IsFrozen env (e ∷ es) m f =
      events-IsFrozen env es (handler_report_event env e m)
        (handler_report_event-IsFrozen env e m f)

-- Once the policy is immutable, no sequence of events changes it: the flag stays set, and the policy
-- table stays the same in every field but the access counts of its entries.
pub report_events-IsFrozen :
    (env : Env) (events : List EventInfo) (m : Machine)
    → m.immutable ≡ true
    → IsFrozen m (report_events env events m)
report_events-IsFrozen env events m h =
    events-IsFrozen m env events m (record { immutable = h; same_rules = refl })
