-- ===== src/System/Log.antt =====
-- The log memory, from `init_agent` of driver/main.c and `init_log` of driver/log.c through the hypercall
-- to `start_log` of handler/log.c.
use ikgt_usage.Base.{ℕ, ◌≡◌, ◌≢◌, ap, ◌∙◌, Bool, true, ◌&&◌, [], ◌∷◌, arith, if◌then◌else◌, ◌==◌}
use ikgt_usage.PolicyCommon.{PolicyMessage, LogMessage}
use ikgt_usage.Handler.Api.{Env, EventInfo, msg, malloc, copy_gva_to_hva, gva_to_gpa, is_success}
use ikgt_usage.Handler.Api
use ikgt_usage.Handler.Machine.{Machine, LogState}
use ikgt_usage.Handler.Log.{start_log, pointer}
use ikgt_usage.Handler.Events.{
  receive_message, handle_msg_event, dispatch_event, handle_command, handler_report_event,
}
use ikgt_usage.Driver.Kernel.{Kernel, Call, hypercall}
use ikgt_usage.Driver.Agent.{AgentLog, init_agent}
use ikgt_usage.Driver.Agent.Outcome.{
  Outcome, init_agent-Outcome, numbers_at, log_at, log_bytes, start_message, entered,
}
use ikgt_usage.System.Hypercall.{delivering, receive, received, at_command}

-- The state of the log when it is started on `size` bytes at the guest's `address`, after the calls `t`:
-- the address and the size are taken, and the records go to the host's address from now on if both
-- translations succeed, and else where they went before.
abbrev pub started : Env → EventInfo → ℕ → ℕ → Api.Trace → LogState → LogState
started env info address size t l =
    let gpa = env.translate_gva t address in
    let hva = env.translate_gpa (gva_to_gpa address ∷ t) info.view_handle gpa.1 in
    record l {
      log_gva = address;
      log_size = size;
      log_data_hva = if is_success gpa.0 && is_success hva.0 then pointer hva.1 else l.log_data_hva;
    }

start_log-started :
    (env : Env) (info : EventInfo) (param : LogMessage) (m : Machine)
    → param.log_addr ≢ 0
    → (start_log env info param m).log
      ≡ started env info param.log_addr param.log_size m.trace m.log
unfolding start_log
start_log-started env info param m ne = ground (arith, ne)

-- The address of the driver's log memory.
abbrev pub log_address : Kernel → Bool → PolicyMessage → AgentLog → ℕ
log_address kernel debug rest log = log_at kernel debug rest log []

-- The log of the handler when it has the driver's message: it is started after the call for the copy of
-- the message, if there is memory for it.
abbrev pub log_told : Env → EventInfo → ℕ → ℕ → ℕ → Machine → LogState
log_told env info gva address size m =
    if env.malloc_succeeds m.trace
    then started env info address size (copy_gva_to_hva gva ∷ malloc true ∷ m.trace) m.log
    else m.log

module _ (env : Env) (info : EventInfo) (gva : ℕ) (d : info.event_data ≡ msg gva) (kernel : Kernel)
    (debug : Bool) (rest : PolicyMessage) (log : AgentLog) (m : Machine)
    (ready : m.init_status ≡ true) where
  told :
      log_address kernel debug rest log ≢ 0
      → (receive env info (hypercall (start_message kernel debug rest log [])) m).log
        ≡ log_told env info gva (log_address kernel debug rest log) (log_bytes kernel) m
  unfolding receive handler_report_event dispatch_event handle_msg_event receive_message
      handle_command
  told ne =
      let param : LogMessage = record {
        log_addr = log_address kernel debug rest log;
        log_size = log_bytes kernel;
      } in
      let message : PolicyMessage = start_message kernel debug rest log [] in
      ground (
        arith,
        ready,
        d,
        start_log-started (delivering env message) info param (at_command env gva m) ne,
      )

  entered_lem : received env info (entered debug []) m ≡ m
  unfolding received receive
  entered_lem = ground (arith)

  -- The log between the two parts. After the calls of `init_agent`, an initialised handler to which the
  -- hypervisor delivers its message has the address and the size of the driver's new log memory, and
  -- writes to the address of the host if both translations succeed, or nowhere if that is 0; if one
  -- fails it has the new address and size, and still writes where it wrote before. If the driver gets no
  -- memory for the numbers or for the log, or the handler has none for the message, the log is as it was.
  pub received-init_agent : (received env info (init_agent kernel debug rest log []).1 m).log ≡ (
      if numbers_at kernel debug rest log [] == 0
      then m.log
      else if log_address kernel debug rest log == 0
      then m.log
      else log_told env info gva (log_address kernel debug rest log) (log_bytes kernel) m)
  unfolding received receive
  received-init_agent =
      let untold : (received env info (entered debug []) m).log ≡ m.log =
        ap (λ x. x.log) entered_lem in
      let message : Call = hypercall (start_message kernel debug rest log []) in
      let sent : log_address kernel debug rest log ≢ 0
          → (receive env info message (received env info (entered debug []) m)).log
            ≡ log_told env info gva (log_address kernel debug rest log) (log_bytes kernel) m =
        λ ne. ap (λ x. (receive env info message x).log) entered_lem ∙ told ne in
      elim (init_agent-Outcome kernel debug rest log []) [
        | Outcome.no_numbers log' z e ↦
            ap (λ x. (received env info x.1 m).log) e ∙ (untold ∙ ground (arith, z))
        | Outcome.no_log log' nz z e ↦
            ap (λ x. (received env info x.1 m).log) e ∙ (untold ∙ ground (arith, nz, z))
        | Outcome.refused nz nz' h e ↦
            ap (λ x. (received env info x.1 m).log) e ∙ (sent nz' ∙ ground (arith, nz, nz'))
        | Outcome.loaded nz nz' h e ↦
            ap (λ x. (received env info x.1 m).log) e ∙ (sent nz' ∙ ground (arith, nz, nz'))
      ]
