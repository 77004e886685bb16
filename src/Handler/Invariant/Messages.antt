-- ===== src/Handler/Invariant/Messages.antt =====
-- The messages of handler/message.c and handler/policy.c on a running machine.
use ikgt_usage.Base.{
  ◌≡◌, refl, sym, ap, subst, ◌∙◌, true, Option, none, some, arith, ℕ, ◌==◌, if_both, ==_false, ◌&&◌,
}
use ikgt_usage.PolicyCommon.{
  PolicyUpdateRec, PolicyMessage, LogMessage, policy_init_log, policy_entry_enable,
  policy_entry_disable, policy_make_immutable, policy_debug_command,
}
use ikgt_usage.PolicyCommon.Resource.{resource_id_unknown}
use ikgt_usage.Handler.Entry.{PolicyTable}
use native.Mathlib.Decide.{ℕ_discrete}
use ikgt_usage.Handler.Api.{
  Trace, call, copy_gva_to_hva, ikgt_malloc, ikgt_free, is_success, EventInfo, Env, Status,
}
use ikgt_usage.Handler.Machine.{Machine}
use ikgt_usage.Handler.Log.{start_log}
use ikgt_usage.Handler.Table.{policy_entry_add, policy_entry_del, policy_msg_to_entry}
use ikgt_usage.Handler.Table.Lookup.{IsValid}
use ikgt_usage.Handler.Table.Laws.{add-IsValid, del-IsValid}
use ikgt_usage.Handler.Policy.{
  policy_msg_add_to, policy_msg_del_to, policy_msg_add, policy_msg_del, handle_msg_policy_enable,
  handle_msg_policy_disable, handle_msg_policy_make_immutable, policy_debug, policy_sanity_check,
}
use ikgt_usage.Handler.Events.{handle_command, receive_message, handle_msg_event}
use ikgt_usage.Handler.Frame.{rules, rules_of, Keeps, Keeps-same}
use ikgt_usage.Handler.Invariant.{IsRunning, Keeps-IsRunning, IsValid-rules_of}

pub start_log-Keeps :
    (env : Env) (e : EventInfo) (l : LogMessage) (m : Machine) → Keeps m (start_log env e l m)
unfolding start_log
start_log-Keeps env e l m =
    Keeps-same m (start_log env e l m) (ground arith) (ground arith) (ground arith) (ground arith)

-- Another valid table.
with_table :
    (m m' : Machine) (t : PolicyTable)
    → IsRunning m
    → m'.init_status ≡ m.init_status
    → m'.fault ≡ m.fault
    → m'.table ≡ some t
    → IsValid t
    → IsRunning m'
unfolding rules
with_table m m' t r i f h v = record {
  initialised = i ∙ r.initialised;
  loaded = (
    rules_of t,
    ap (λ (o : Option PolicyTable). elim o [ none ↦ none | some t ↦ some (rules_of t) ]) h,
    (IsValid-rules_of t).0 v,
  );
  no_fault = f ∙ r.no_fault;
}

-- The table of a running machine.
pub table_of : (m : Machine) → IsRunning m → (t : PolicyTable) × (m.table ≡ some t) × IsValid t
unfolding rules
table_of m r = go m.table refl r.loaded.0 r.loaded.1 r.loaded.2
  where
    go :
        (o : Option PolicyTable)
        → m.table ≡ o
        → (t : PolicyTable) → elim o [ none ↦ none | some t ↦ some (rules_of t) ] ≡ some t
        → IsValid t
        → (t : PolicyTable) × (m.table ≡ some t) × IsValid t
    go none e t h v = cc
    go (some t) e t' h v =
        (t, e, (IsValid-rules_of t).1 (subst IsValid (sym (ground (arith, h))) v))

policy_msg_add_to-IsRunning :
    (env : Env) (msg : PolicyUpdateRec) (t : PolicyTable) (m : Machine)
    → IsRunning m
    → IsValid t
    → IsRunning (policy_msg_add_to env msg (some t) m).1
unfolding policy_msg_add_to
policy_msg_add_to-IsRunning env msg t m r v =
    elim (ℕ_discrete msg.resource_id resource_id_unknown) [
      | yes p ↦ rw (p) r
      | no ne ↦ rw (==_false msg.resource_id resource_id_unknown ne) (
          with_table m _ (policy_entry_add (policy_msg_to_entry msg env.stack_entry) t) r refl refl
            refl
            (add-IsValid (policy_msg_to_entry msg env.stack_entry) t
              (unfold policy_msg_to_entry in ne) v))
    ]

policy_msg_add-IsRunning :
    (env : Env) (msg : PolicyUpdateRec) (m : Machine)
    → IsRunning m
    → IsRunning (policy_msg_add env msg m).1
unfolding policy_msg_add
policy_msg_add-IsRunning env msg m r =
    let (t, e, v) = table_of m r in
    subst (λ o. IsRunning (policy_msg_add_to env msg o m).1) (sym e)
      (policy_msg_add_to-IsRunning env msg t m r v)

policy_msg_del_to-IsRunning :
    (env : Env) (msg : PolicyUpdateRec) (t : PolicyTable) (m : Machine)
    → IsRunning m
    → IsValid t
    → IsRunning (policy_msg_del_to env msg (some t) m).1
unfolding policy_msg_del_to
policy_msg_del_to-IsRunning env msg t m r v =
    elim (ℕ_discrete msg.resource_id resource_id_unknown) [
      | yes p ↦ rw (p) r
      | no ne ↦ rw (==_false msg.resource_id resource_id_unknown ne) (
          with_table m _ (policy_entry_del (policy_msg_to_entry msg env.stack_entry) t) r refl refl
            refl
            (del-IsValid (policy_msg_to_entry msg env.stack_entry) t
              (unfold policy_msg_to_entry in ne) v))
    ]

policy_msg_del-IsRunning :
    (env : Env) (msg : PolicyUpdateRec) (m : Machine)
    → IsRunning m
    → IsRunning (policy_msg_del env msg m).1
unfolding policy_msg_del
policy_msg_del-IsRunning env msg m r =
    let (t, e, v) = table_of m r in
    subst (λ o. IsRunning (policy_msg_del_to env msg o m).1) (sym e)
      (policy_msg_del_to-IsRunning env msg t m r v)

handle_msg_policy_enable-IsRunning :
    (env : Env) (msg : PolicyUpdateRec) (m : Machine)
    → IsRunning m
    → IsRunning (handle_msg_policy_enable env msg m)
unfolding handle_msg_policy_enable policy_sanity_check
handle_msg_policy_enable-IsRunning env msg m r =
    if_both IsRunning m.immutable m (policy_msg_add env msg m).1 r
      (policy_msg_add-IsRunning env msg m r)

handle_msg_policy_disable-IsRunning :
    (env : Env) (msg : PolicyUpdateRec) (m : Machine)
    → IsRunning m
    → IsRunning (handle_msg_policy_disable env msg m)
unfolding handle_msg_policy_disable policy_sanity_check
handle_msg_policy_disable-IsRunning env msg m r =
    if_both IsRunning m.immutable m (policy_msg_del env msg m).1 r
      (policy_msg_del-IsRunning env msg m r)

make_immutable-IsRunning :
    (m : Machine) → IsRunning m → IsRunning (handle_msg_policy_make_immutable m)
unfolding handle_msg_policy_make_immutable rules
make_immutable-IsRunning m r =
    if_both IsRunning m.immutable m (record m { immutable = true }) r
      (record { initialised = r.initialised; loaded = r.loaded; no_fault = r.no_fault })

policy_debug-IsRunning :
    (parameter : ℕ) (m : Machine) → IsRunning m → IsRunning (policy_debug parameter m)
unfolding policy_debug
policy_debug-IsRunning parameter m r =
    let (t, e, v) = table_of m r in
    if_both IsRunning (parameter == 400) (handle_msg_policy_make_immutable m) _
      (make_immutable-IsRunning m r)
      (Keeps-IsRunning m _
        (Keeps-same m _ (ground (arith, e)) (ground (arith, e)) (ground (arith, e))
          (ground (arith, e)))
        r)

handle_command-IsRunning :
    (env : Env) (info : EventInfo) (message : PolicyMessage) (m : Machine)
    → IsRunning m
    → IsRunning (handle_command env info message m)
unfolding handle_command
handle_command-IsRunning env info message m r =
    if_both IsRunning (message.command == policy_init_log) _ _
      (Keeps-IsRunning m _ (start_log-Keeps env info message.log_param m) r)
      (if_both IsRunning (message.command == policy_entry_enable) _ _
        (handle_msg_policy_enable-IsRunning env message.policy_data m r)
        (if_both IsRunning (message.command == policy_entry_disable) _ _
          (handle_msg_policy_disable-IsRunning env message.policy_data m r)
          (if_both IsRunning (message.command == policy_make_immutable) _ _
            (make_immutable-IsRunning m r)
            (if_both IsRunning (env.debug && message.command == policy_debug_command) _ _
              (policy_debug-IsRunning message.debug_parameter m r) r))))

traced : (m : Machine) (t : Trace) → IsRunning m → IsRunning (record m { trace = t })
traced m t r = Keeps-IsRunning m _ (Keeps-same m (record m { trace = t }) refl refl refl refl) r

receive_message-IsRunning :
    (env : Env) (info : EventInfo) (answer : Status × PolicyMessage) (m : Machine)
    → IsRunning m
    → IsRunning (receive_message env info answer m)
unfolding receive_message
receive_message-IsRunning env info (status, message) m r =
    if_both IsRunning (is_success status) (handle_command env info message m) m
      (handle_command-IsRunning env info message m r) r

pub handle_msg_event-IsRunning :
    (env : Env) (info : EventInfo) (gva : ℕ) (m : Machine)
    → IsRunning m
    → IsRunning (handle_msg_event env info gva m)
unfolding handle_msg_event
handle_msg_event-IsRunning env info gva m r =
    let allocated = ikgt_malloc env m.trace in
    let answer = call (λ t. env.copy_message t gva) (copy_gva_to_hva gva) allocated.1 in
    let handled = receive_message env info answer.0 (record m { trace = answer.1 }) in
    if_both IsRunning allocated.0 (record handled { trace = (ikgt_free env handled.trace).1 })
      (record m { trace = allocated.1 })
      (traced handled (ikgt_free env handled.trace).1 (
        receive_message-IsRunning env info answer.0 (record m { trace = answer.1 })
          (traced m answer.1 r)))
      (traced m allocated.1 r)
