-- ===== src/Handler/Crx/Audit.antt =====
-- handler/cpu_cr0.c and handler/cpu_cr4.c: what a write leaves in the access counts, in the counters and
-- in the log.
use ikgt_usage.Base.{
  ℕ, ◌+◌, ◌≡◌, ◌≢◌, refl, sym, ap, subst, ◌∙◌, Bool, true, false, ◌||◌, List, map, some, arith,
  bit_xor, ==_false, if◌then◌else◌, u64,
}
use ikgt_usage.Handler.Entry.{PolicyEntry, PolicyTable}
use ikgt_usage.Handler.Api.{Env, EventInfo, VmcsReg, Trace, Response}
use ikgt_usage.Handler.Machine.{Machine, PolicyCounters, LogState, resume, modify, return_if, ◌>>=◌}
use ikgt_usage.Handler.Log.{log_event}
use ikgt_usage.Handler.Crx.{
  Crx, CrxCtx, scan_crx_policies, scan_slots, scan_table, finish_crx_event, decide_crx, cr0, cr4,
}
use ikgt_usage.Handler.Crx.Value.{start_ctx}
use ikgt_usage.Handler.Crx.Scan.{counted, hits, is_logged, total, scan_lem}

-- The counters of a register are apart from the fields that the handler sets beside them.
pub record IsApart (crx : Crx) : Type 0 where
  pub own : (m : Machine) (c : PolicyCounters) → crx.counters (crx.set_counters m c) ≡ c
  pub set_log : (m : Machine) (c : PolicyCounters) → (crx.set_counters m c).log ≡ m.log
  pub set_trace : (m : Machine) (c : PolicyCounters) → (crx.set_counters m c).trace ≡ m.trace
  pub set_table : (m : Machine) (c : PolicyCounters) → (crx.set_counters m c).table ≡ m.table
  pub others :
      (m : Machine) (l : LogState) (t : Trace) (r : Response)
      → crx.counters (record m { log = l; trace = t; response = r }) ≡ crx.counters m

-- What a write of `new` over `cur` leaves, from the machine `m` with the slots `es`.
pub record Audited (crx : Crx) (env : Env) (info : EventInfo) (cur new : ℕ) (t : PolicyTable)
    (m m' : Machine) : Type 0 where
  pub accesses :
      m'.table
      ≡ some (record t { policy_entry = map (counted crx (bit_xor cur new)) t.policy_entry })
  pub log : m'.log ≡ (
      if is_logged crx (bit_xor cur new) t.policy_entry then (log_event env info m).log else m.log)
  pub outcomes :
      u64 (total (crx.counters m'))
      ≡ u64 (total (crx.counters m) + hits crx (bit_xor cur new) t.policy_entry)

-- The log and the trace decide what `log_event` does, and it changes no more than them.
pub log_event-frame :
    (env : Env) (e : EventInfo) (m : Machine)
    → log_event env e m
      ≡ record m { log = (log_event env e m).log; trace = (log_event env e m).trace }
unfolding log_event
log_event-frame env e m = ground arith

pub log_event-log :
    (env : Env) (e : EventInfo) (m m' : Machine)
    → m'.log ≡ m.log
    → m'.trace ≡ m.trace
    → (log_event env e m').log ≡ (log_event env e m).log
unfolding log_event
log_event-log env e m m' h k = ground (arith, h, k)

finish-frame :
    (env : Env) (info : EventInfo) (id : VmcsReg) (ctx : CrxCtx) (m : Machine)
    → finish_crx_event env info id ctx m ≡ record m {
      log = if ctx.log then (log_event env info m).log else m.log;
      trace = (finish_crx_event env info id ctx m).trace;
      response = (finish_crx_event env info id ctx m).response;
    }
unfolding finish_crx_event
finish-frame env info id ctx m = ground (arith, log_event-frame env info m)

or_false : (b : Bool) → (b || false) ≡ b
or_false true = refl
or_false false = refl

if_same :
    (b : Bool) (x x' y y' : LogState)
    → x ≡ x'
    → y ≡ y'
    → (if b then x else y) ≡ (if b then x' else y')
if_same true x x' y y' h k = h
if_same false x x' y y' h k = k

module _ (crx : Crx) (a : IsApart crx) (env : Env) (info : EventInfo) (id : VmcsReg) (cur new : ℕ)
    (t : PolicyTable) (m : Machine) where
  abbrev scanned : List PolicyEntry × CrxCtx
  scanned = scan_crx_policies crx t.policy_entry (start_ctx cur new (crx.counters m))

  abbrev slots_counted : Machine
  slots_counted = record m { table = some (record t { policy_entry = scanned.0 }) }

  -- The machine after the loop.
  abbrev looped : Machine
  looped = crx.set_counters slots_counted scanned.1.counters

  finish-Audited : Audited crx env info cur new t m (finish_crx_event env info id scanned.1 looped)
  finish-Audited =
      let (entries, logs, sum) = scan_lem crx t.policy_entry (start_ctx cur new (crx.counters m)) in
      let frame = finish-frame env info id scanned.1 looped in
      let log_same = a.set_log slots_counted scanned.1.counters in
      let trace_same = a.set_trace slots_counted scanned.1.counters in
      record {
        accesses =
            ap (λ x. x.table) frame
            ∙ (a.set_table slots_counted scanned.1.counters
                ∙ ap (λ es. some (record t { policy_entry = es })) entries);
        log =
            ap (λ x. x.log) frame
            ∙ (ap (λ b. if b then (log_event env info looped).log else looped.log)
                  (logs ∙ or_false (is_logged crx (bit_xor cur new) t.policy_entry))
                ∙ if_same (is_logged crx (bit_xor cur new) t.policy_entry)
                    (log_event env info looped).log (log_event env info m).log looped.log m.log
                    (log_event-log env info m looped log_same trace_same) log_same);
        outcomes =
            ap (λ x. u64 (total (crx.counters x))) frame
            ∙ (ap (λ c. u64 (total c))
                  (a.others looped
                      (if scanned.1.log then (log_event env info looped).log else looped.log)
                      (finish_crx_event env info id scanned.1 looped).trace
                      (finish_crx_event env info id scanned.1 looped).response
                    ∙ a.own slots_counted scanned.1.counters)
                ∙ sum);
      }

  -- A write that changes the register: the entries about the changed bits have one more access, the
  -- counters of outcomes together count one for each of them, and the write is logged exactly when one of
  -- them asks for it.
  pub decide_crx-Audited :
      bit_xor cur new ≢ 0
      → m.table ≡ some t
      → Audited crx env info cur new t m (decide_crx crx env info (id, (cur, new)) m).1
  unfolding decide_crx scan_table scan_slots
  decide_crx-Audited ne h =
      subst
        (λ b.
          Audited crx env info cur new t m
            (resume
              (λ _. scan_table crx cur new >>= λ ctx. modify (finish_crx_event env info id ctx))
              (return_if b m).0 (return_if b m).1).1)
        (sym (==_false (bit_xor cur new) 0 ne))
        (subst
          (λ o.
            Audited crx env info cur new t m
              (resume (λ ctx. modify (finish_crx_event env info id ctx))
                (scan_slots crx cur new o m).0 (scan_slots crx cur new o m).1).1)
          (sym h) finish-Audited)

pub cr0-IsApart : IsApart cr0
cr0-IsApart = record {
  own = λ m c. refl;
  set_log = λ m c. refl;
  set_trace = λ m c. refl;
  set_table = λ m c. refl;
  others = λ m l t r. refl;
}

pub cr4-IsApart : IsApart cr4
cr4-IsApart = record {
  own = λ m c. refl;
  set_log = λ m c. refl;
  set_trace = λ m c. refl;
  set_table = λ m c. refl;
  others = λ m l t r. refl;
}
