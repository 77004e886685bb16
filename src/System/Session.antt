-- ===== src/System/Session.antt =====
-- The whole program: the directory of the driver, from driver/configfs_setup.c and the files of its groups,
-- over the hypercalls to the policies of handler/policy.c.
pub mod Answers
use ikgt_usage.Base.{
  ℕ, ◌≡◌, refl, sym, ap, subst, ◌∙◌, true, List, [], ◌∷◌, ◌++◌, Option, none, some, arith,
  if◌then◌else◌, All,
}
use ikgt_usage.PolicyCommon.{PolicyMessage, LogBuffer}
use ikgt_usage.Handler.Api.{Env, EventInfo, EventData, mem, cpu, msg, other_event, allow}
use ikgt_usage.Handler.Api
use ikgt_usage.Handler.Machine.{Machine, boot}
use ikgt_usage.Handler.Events.{
  handler_initialize, dispatch_event, handler_report_event, report_events,
}
use ikgt_usage.Handler.Frame.{Keeps, Keeps-refl, Keeps-trans, Keeps-same}
use ikgt_usage.Handler.Frame.Cpu.{handle_memory_event-Keeps, handle_cpu_event-Keeps}
use ikgt_usage.Handler.Invariant.{IsRunning, Keeps-IsRunning}
use ikgt_usage.Handler.Invariant.Sequences.{report_events-IsRunning, report_events-init}
use ikgt_usage.Handler.Policies
use ikgt_usage.Handler.Policies.{Policies, policies, message_in, message_of, apply_message, replay}
use ikgt_usage.Handler.Policies.Tables.{Holds}
use ikgt_usage.Handler.Policies.Commands.{Keeps-Holds}
use ikgt_usage.Handler.Policies.Sequences.{no_policies, init-Holds, handler_report_event-Holds}
use ikgt_usage.Driver.Kernel.{Kernel, Trace, Call, hypercall}
use ikgt_usage.Driver.Session.Sent.{Names, AllNamed}
use ikgt_usage.Driver.Tree.{TreeOp, run_tree}
use ikgt_usage.Driver.Tree.Sent.{run_tree-AllNamed}
use ikgt_usage.System.Hypercall.{delivering, receive}

sent_by : Call → List PolicyMessage
sent_by (hypercall message) = message ∷ []
sent_by _ = []

-- The messages in the driver's calls, in order.
unfoldable pub sent : Trace → List PolicyMessage
unfolding sent_by
sent [] = []
sent (c ∷ t) = sent t ++ sent_by c

replay-append :
    (env : Env) (messages more : List PolicyMessage) (p : Policies)
    → replay env (messages ++ more) p ≡ replay env more (replay env messages p)
unfolding replay
replay-append env [] more p = refl
replay-append env (message ∷ messages) more p =
    replay-append env messages more (apply_message env message p)

-- A moment of the whole program: a call of the driver, or an event of the guest with what the
-- hypervisor answers then.
pub data Step : Type 0 where
  driver : Call → Step
  guest : Env → EventInfo → Step

-- The driver's calls, the latest first.
unfoldable pub calls_in : List Step → Trace
calls_in [] = []
calls_in (driver c ∷ steps) = c ∷ calls_in steps
calls_in (guest env e ∷ steps) = calls_in steps

unfoldable pub apply_step : Env → EventInfo → Step → Machine → Machine
unfolding receive
apply_step env info (driver c) m = receive env info c m
apply_step env info (guest env' e) m = handler_report_event env' e m

-- The handler after the steps, of which the latest is first.
unfoldable pub run_steps : Env → EventInfo → List Step → Machine → Machine
unfolding apply_step
run_steps env info [] m = m
run_steps env info (step ∷ steps) m = apply_step env info step (run_steps env info steps m)

-- The event is no message.
abbrev pub NoMessage : EventData → Type 0
NoMessage (msg gva) = ⊥
NoMessage _ = Unit

abbrev pub IsAccess : Step → Type 0
IsAccess (guest env e) = NoMessage e.event_data
IsAccess (driver c) = Unit

-- The handler is running with the policies `p`.
pub record Runs (p : Policies) (m : Machine) : Type 0 where
  pub running : IsRunning m
  pub held : Holds p m

dispatch_event-Keeps :
    (env : Env) (e : EventInfo) (d : EventData) (m : Machine)
    → NoMessage d
    → Keeps m (dispatch_event env e d m)
unfolding dispatch_event
dispatch_event-Keeps env e (mem perms attempt) m n = handle_memory_event-Keeps env e perms attempt m
dispatch_event-Keeps env e (cpu op event_reg operand) m n =
    handle_cpu_event-Keeps env e op event_reg operand m
dispatch_event-Keeps env e (msg gva) m n = elim n [ ]
dispatch_event-Keeps env e other_event m n = Keeps-refl m

-- An access of the guest leaves the policies as they are.
access-Runs :
    (env : Env) (e : EventInfo) (p : Policies) (m : Machine)
    → NoMessage e.event_data
    → Runs p m
    → Runs p (handler_report_event env e m)
unfolding handler_report_event
access-Runs env e p m n r =
    let start : Machine = record m { response = allow } in
    let k : Keeps m (dispatch_event env e e.event_data start) =
      Keeps-trans m start _ (Keeps-same m start refl refl refl refl)
        (dispatch_event-Keeps env e e.event_data start n) in
    let after : Runs p (dispatch_event env e e.event_data start) = record {
      running = Keeps-IsRunning m _ k r.running;
      held =
          subst (λ q. Holds q (dispatch_event env e e.event_data start)) r.held.same
            (Keeps-Holds m _ k r.held.ranged);
    } in
    subst (λ b. Runs p (if b then dispatch_event env e e.event_data start else start))
      (sym r.running.initialised) after

-- What one message does does not depend on how it is delivered.
replay-delivering :
    (env : Env) (message : PolicyMessage) (p : Policies)
    → replay (delivering env message) (message ∷ []) p ≡ replay env (message ∷ []) p
unfolding replay apply_message
replay-delivering env message p = refl

module _ (env : Env) (info : EventInfo) (gva : ℕ) (d : info.event_data ≡ msg gva)
    (memory_left : (t : Api.Trace) → env.malloc_succeeds t ≡ true) where
  message_of-delivering :
      (message : PolicyMessage) (m : Machine)
      → message_of (delivering env message) info m ≡ some message
  unfolding message_of message_in
  message_of-delivering message m = ground (arith, d, memory_left m.trace)

  receive-Runs :
      (c : Call) (p : Policies) (m : Machine)
      → Names c
      → Runs p m
      → Runs (replay env (sent_by c) p) (receive env info c m)
  unfolding receive sent_by replay report_events
  receive-Runs (hypercall message) p m named r =
      let env' : Env = delivering env message in
      let h = handler_report_event-Holds env' info m r.running r.held.ranged (λ t a n. named) in
      let o = message_of-delivering message m in
      record {
        running = report_events-IsRunning env' (info ∷ []) m r.running;
        held =
            subst (λ q. Holds q (handler_report_event env' info m))
              (ap (λ x. replay env' (Policies.received x []) (policies m)) o
                ∙ (replay-delivering env message (policies m)
                    ∙ ap (replay env (message ∷ [])) r.held.same))
              h;
      }
  receive-Runs c p m named r = r

  run_steps-Runs :
      (steps : List Step) (p : Policies) (m : Machine)
      → AllNamed (calls_in steps)
      → All IsAccess steps
      → Runs p m
      → Runs (replay env (sent (calls_in steps)) p) (run_steps env info steps m)
  unfolding run_steps apply_step calls_in sent replay
  run_steps-Runs [] p m named accesses r = r
  run_steps-Runs (driver c ∷ steps) p m named accesses r =
      subst (λ q. Runs q (receive env info c (run_steps env info steps m)))
        (sym (replay-append env (sent (calls_in steps)) (sent_by c) p))
        (receive-Runs c (replay env (sent (calls_in steps)) p) (run_steps env info steps m) named.0
          (run_steps-Runs steps p m named.1 accesses.1 r))
  run_steps-Runs (guest env' e ∷ steps) p m named accesses r =
      access-Runs env' e (replay env (sent (calls_in steps)) p) (run_steps env info steps m)
        accesses.0 (run_steps-Runs steps p m named accesses.1 r)

All-after :
    {A : Type 0} (P : A → Type 0) (later earlier : List A)
    → All P (later ++ earlier)
    → All P earlier
All-after P [] earlier h = h
All-after P (x ∷ later) earlier h = All-after P later earlier h.1

-- A moment of the whole program: the driver has made the earlier of the calls by which it serves what the
-- user does in its directory, and between them the guest has made any accesses.
pub record IsMoment (kernel : Kernel) (ops : List TreeOp) (steps : List Step) : Type 0 where
  pub later : Trace
  pub calls : later ++ calls_in steps ≡ (run_tree kernel ops [] []).1
  pub accesses : All IsAccess steps

moment-AllNamed :
    (kernel : Kernel) (ops : List TreeOp) (steps : List Step)
    → IsMoment kernel ops steps
    → AllNamed (calls_in steps)
moment-AllNamed kernel ops steps i =
    All-after Names i.later (calls_in steps)
      (subst AllNamed (sym i.calls) (run_tree-AllNamed kernel ops [] [] tt))

-- The handler from its start over the steps.
abbrev pub handler_at : Env → EventInfo → (ℕ → LogBuffer) → Api.Trace → List Step → Machine
handler_at env info memory start steps =
    run_steps env info steps (handler_initialize env (boot memory start))

module _ (kernel : Kernel) (env : Env) (info : EventInfo) (memory : ℕ → LogBuffer)
    (start : Api.Trace) (gva : ℕ) (d : info.event_data ≡ msg gva)
    (memory_left : (t : Api.Trace) → env.malloc_succeeds t ≡ true) (ops : List TreeOp)
    (steps : List Step) (now : IsMoment kernel ops steps) where
  pub moment-Runs :
      Runs (replay env (sent (calls_in steps)) no_policies) (handler_at env info memory start steps)
  unfolding report_events
  moment-Runs =
      run_steps-Runs env info gva d memory_left steps no_policies
        (handler_initialize env (boot memory start)) (moment-AllNamed kernel ops steps now)
        now.accesses
        (record {
          running = report_events-init env memory start [] (memory_left start);
          held = init-Holds env memory start (memory_left start);
        })

  -- The driver's directory and the handler together, at any moment. If the handler gets its memory at the
  -- start and for every message, and each message of the driver is delivered as it was sent, then whatever
  -- groups and nodes the user makes, writes and removes from an empty directory, and whatever the guest
  -- accesses between the calls of the driver, the handler has exactly the policies that the driver's
  -- messages so far make of none.
  pub policies-run_steps :
      policies (handler_at env info memory start steps)
      ≡ replay env (sent (calls_in steps)) no_policies
  policies-run_steps = moment-Runs.held.same
