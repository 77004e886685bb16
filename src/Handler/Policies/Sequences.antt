-- ===== src/Handler/Policies/Sequences.antt =====
-- handler/handler.c and handler/message.c: a sequence of events, as a replay of its messages.
use mathlib.Core.Path.{fun_ext}
use ikgt_usage.Base.{
  arith, ℕ, ◌≡◌, refl, sym, ap, subst, ◌∙◌, Bool, true, false, ◌&&◌, List, [], ◌∷◌, Option, none,
  some, if◌then◌else◌,
}
use ikgt_usage.PolicyCommon.{PolicyMessage, LogBuffer}
use ikgt_usage.Handler.Api.{
  Env, EventInfo, EventData, mem, cpu, msg, other_event, Trace, malloc, is_success, allow,
  copy_gva_to_hva, ikgt_free,
}
use ikgt_usage.Handler.Machine.{Machine, boot}
use ikgt_usage.Handler.Entry.{PolicyTable}
use ikgt_usage.Handler.Table.{empty_table}
use ikgt_usage.Handler.Table.Lookup.{lookup}
use ikgt_usage.Handler.Table.Laws.{empty_table-IsValid}
use ikgt_usage.Handler.Policy.{policy_initialize}
use ikgt_usage.Handler.Table.Room.{InRange}
use ikgt_usage.Handler.Events.{
  receive_message, handle_msg_event, dispatch_event, handler_report_event, report_events,
  handler_initialize,
}
use ikgt_usage.Handler.Frame.{rules, rules_of, Keeps-same}
use ikgt_usage.Handler.Frame.Cpu.{handle_memory_event-Keeps, handle_cpu_event-Keeps}
use ikgt_usage.Handler.Invariant.{IsRunning, Keeps-IsRunning}
use ikgt_usage.Handler.Invariant.Sequences.{report_events-IsRunning, report_events-init}
use ikgt_usage.Handler.Policies.{
  Policies, policies, apply_message, message_in, message_of, received, messages_of, replay,
  NamesResources,
}
use ikgt_usage.Handler.Policies.Tables.{InRange-rule, Ranged, Holds, unchanged}
use ikgt_usage.Handler.Policies.Commands.{Keeps-Holds, handle_command-Holds}

-- The machine after the message is freed.
abbrev freed : Env → Machine → Machine
freed env m = record m { trace = (ikgt_free env m.trace).1 }

freed-Holds : (env : Env) (p : Policies) (m : Machine) → Holds p m → Holds p (freed env m)
unfolding rules
freed-Holds env p m h = record { same = h.same; ranged = h.ranged }

-- The branches on the allocation and on the copy, on both sides.
branches :
    (b s : Bool) (env : Env) (message : PolicyMessage) (p : Policies) (handled m m' : Machine)
    → Holds (apply_message env message p) handled
    → Holds p m
    → Holds p m'
    → Holds
        (replay env (received (if b && s then some message else none) []) p)
        (if b then freed env (if s then handled else m) else m')
unfolding replay
branches true true env message p handled m m' h k k' = freed-Holds env _ handled h
branches true false env message p handled m m' h k k' = freed-Holds env p m k
branches false s env message p handled m m' h k k' = k'

-- The machine with other calls made.
abbrev traced : Machine → Trace → Machine
traced m t = record m { trace = t }

module _ (env : Env) (info : EventInfo) (m : Machine) (run : IsRunning m) (r : Ranged m) where
  traced-IsRunning : (t : Trace) → IsRunning (traced m t)
  traced-IsRunning t =
      Keeps-IsRunning m (traced m t) (Keeps-same m (traced m t) refl refl refl refl) run

  traced-Holds : (t : Trace) → Holds (policies m) (traced m t)
  traced-Holds t = Keeps-Holds m (traced m t) (Keeps-same m (traced m t) refl refl refl refl) r

  handle_msg_event-Holds :
      (gva : ℕ)
      → NamesResources env
      → Holds
          (replay env (received (message_in env (msg gva) m.trace) []) (policies m))
          (handle_msg_event env info gva m)
  unfolding handle_msg_event receive_message rules message_in
  handle_msg_event-Holds gva names =
      let t : Trace = malloc (env.malloc_succeeds m.trace) ∷ m.trace in
      let copied : Trace = copy_gva_to_hva gva ∷ t in
      branches (env.malloc_succeeds m.trace) (is_success (env.copy_message t gva).0) env
        (env.copy_message t gva).1 (policies m) _ _ _
        (handle_command-Holds env info (env.copy_message t gva).1 (traced m copied)
          (traced-IsRunning copied) (traced-Holds copied).ranged (names t gva))
        (traced-Holds copied) (traced-Holds t)

  dispatch_event-Holds :
      (d : EventData)
      → NamesResources env
      → Holds
          (replay env (received (message_in env d m.trace) []) (policies m))
          (dispatch_event env info d m)
  unfolding dispatch_event message_in replay
  dispatch_event-Holds (mem perms attempt) names =
      Keeps-Holds m _ (handle_memory_event-Keeps env info perms attempt m) r
  dispatch_event-Holds (cpu op event_reg operand) names =
      Keeps-Holds m _ (handle_cpu_event-Keeps env info op event_reg operand m) r
  dispatch_event-Holds (msg gva) names = handle_msg_event-Holds gva names
  dispatch_event-Holds other_event names = unchanged (policies m) m r refl

pub handler_report_event-Holds :
    (env : Env) (info : EventInfo) (m : Machine)
    → IsRunning m
    → Ranged m
    → NamesResources env
    → Holds
        (replay env (received (message_of env info m) []) (policies m))
        (handler_report_event env info m)
unfolding handler_report_event message_of rules
handler_report_event-Holds env info m run r names =
    let start : Machine = record m { response = allow } in
    let k = Keeps-same m start refl refl refl refl in
    subst
      (λ b.
        Holds (replay env (received (message_of env info m) []) (policies m))
          (if b then dispatch_event env info info.event_data start else start))
      (sym run.initialised)
      (dispatch_event-Holds env info start (Keeps-IsRunning m start k run)
        (Keeps-Holds m start k r).ranged info.event_data names)

replay-received :
    (env : Env) (o : Option PolicyMessage) (messages : List PolicyMessage) (p : Policies)
    → replay env (received o messages) p ≡ replay env messages (replay env (received o []) p)
unfolding replay
replay-received env none messages p = refl
replay-received env (some message) messages p = refl

-- The same for every sequence, from a running handler.
pub report_events-Holds :
    (env : Env) (events : List EventInfo) (m : Machine)
    → IsRunning m
    → Ranged m
    → NamesResources env
    → Holds (replay env (messages_of env events m) (policies m)) (report_events env events m)
unfolding report_events messages_of replay
report_events-Holds env [] m run r names = unchanged (policies m) m r refl
report_events-Holds env (e ∷ es) m run r names =
    let h = handler_report_event-Holds env e m run r names in
    let next : Machine = handler_report_event env e m in
    subst (λ p. Holds p (report_events env es next))
      (ap (replay env (messages_of env es next)) h.same
        ∙ sym (replay-received env (message_of env e m) (messages_of env es next) (policies m)))
      (report_events-Holds env es next (report_events-IsRunning env (e ∷ []) m run) h.ranged names)

abbrev pub no_policies : Policies
no_policies = record { policy = λ _. none; immutable = false }

pub init-Holds :
    (env : Env) (memory : ℕ → LogBuffer) (t : Trace)
    → env.malloc_succeeds t ≡ true
    → Holds no_policies (handler_initialize env (boot memory t))
unfolding handler_initialize policy_initialize boot rules rules_of lookup
init-Holds env memory t h = rw h (record {
  same = ap (λ f. record { policy = f; immutable = false }) (fun_ext λ j. ground arith);
  ranged = λ t q.
      let equal : rules_of empty_table ≡ t = ground (arith, q) in
      subst (λ (x : PolicyTable). InRange x.policy_entry) equal
        ((InRange-rule empty_table.policy_entry).0 empty_table-IsValid.1);
})

-- The handler as a store of policies. If `handler_initialize` gets its memory and the hypervisor delivers
-- updates of resources only, then every later sequence of events leaves exactly the policies that the
-- messages it brings make of none: each is the one last enabled and not disabled since, as it was sent,
-- until the policies become immutable. The accesses of the guest, the messages that are lost and the
-- other answers of the hypervisor have no part in it, and there is always room for a policy.
pub policies-report_events :
    (env : Env) (memory : ℕ → LogBuffer) (t : Trace) (events : List EventInfo)
    → env.malloc_succeeds t ≡ true
    → NamesResources env
    → let m : Machine = handler_initialize env (boot memory t) in
      policies (report_events env events m) ≡ replay env (messages_of env events m) no_policies
unfolding report_events
policies-report_events env memory t events h names =
    let m : Machine = handler_initialize env (boot memory t) in
    let first = init-Holds env memory t h in
    (report_events-Holds env events m (report_events-init env memory t [] h) first.ranged
      names).same
    ∙ ap (replay env (messages_of env events m)) first.same
