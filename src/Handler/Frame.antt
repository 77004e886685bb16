-- ===== src/Handler/Frame.antt =====
-- The fields of a machine that the handlers of guest accesses in handler/ are compared on: the
-- policies but for their access counts, the immutable flag and the initialisation status.
pub mod ControlRegs
pub mod Cpu
use ikgt_usage.Base.{
  ◌≡◌, ◌≢◌, refl, sym, ap, ◌∙◌, true, List, [], ◌∷◌, map, Option, none, some, arith,
}
use ikgt_usage.Handler.Entry.{PolicyEntry, PolicyTable, policy_entry_inc_access_count}
use ikgt_usage.Handler.Api.{EventInfo, Env}
use ikgt_usage.Handler.Machine.{Machine}
use ikgt_usage.Handler.Log.{log_event}
use ikgt_usage.Handler.Crx.{Crx, CrxCtx, process_crx_policy, scan_step, scan_crx_policies}

-- An entry without its access count.
abbrev pub rule : PolicyEntry → PolicyEntry
rule e = record e { access_count = 0 }

-- The policy table without the access counts.
unfoldable pub rules_of : PolicyTable → PolicyTable
rules_of t = record t { policy_entry = map rule t.policy_entry }

unfoldable pub rules : Machine → Option PolicyTable
unfolding rules_of
rules m = elim m.table [ none ↦ none | some t ↦ some (rules_of t) ]

-- From `m` to `m'`.
pub record Keeps (m m' : Machine) : Type 0 where
  pub rules_kept : rules m' ≡ rules m
  pub immutable_kept : m'.immutable ≡ m.immutable
  pub init_kept : m'.init_status ≡ m.init_status
  pub fault_kept : rules m ≢ none → m'.fault ≡ m.fault

pub Keeps-refl : (m : Machine) → Keeps m m
Keeps-refl m = record {
  rules_kept = refl;
  immutable_kept = refl;
  init_kept = refl;
  fault_kept = λ _. refl;
}

pub Keeps-trans : (a b c : Machine) → Keeps a b → Keeps b c → Keeps a c
Keeps-trans a b c h k = record {
  rules_kept = k.rules_kept ∙ h.rules_kept;
  immutable_kept = k.immutable_kept ∙ h.immutable_kept;
  init_kept = k.init_kept ∙ h.init_kept;
  fault_kept = λ p. k.fault_kept (λ q. p (cc)) ∙ h.fault_kept p;
}

-- Machines that agree on the four fields.
pub Keeps-same :
    (m m' : Machine)
    → m'.table ≡ m.table
    → m'.immutable ≡ m.immutable
    → m'.init_status ≡ m.init_status
    → m'.fault ≡ m.fault
    → Keeps m m'
unfolding rules
Keeps-same m m' t i s f = record {
  rules_kept = cc;
  immutable_kept = i;
  init_kept = s;
  fault_kept = λ _. f;
}

pub log_event-Keeps : (env : Env) (e : EventInfo) (m : Machine) → Keeps m (log_event env e m)
unfolding log_event
log_event-Keeps env e m =
    Keeps-same m (log_event env e m) (ground arith) (ground arith) (ground arith) (ground arith)

scan_step-rule :
    (crx : Crx) (e : PolicyEntry) (ctx : CrxCtx) → rule (scan_step crx e ctx).0 ≡ rule e
unfolding scan_step process_crx_policy policy_entry_inc_access_count
scan_step-rule crx e ctx = ground arith

scan_crx_policies-rules :
    (crx : Crx) (es : List PolicyEntry) (ctx : CrxCtx)
    → map rule (scan_crx_policies crx es ctx).0 ≡ map rule es
unfolding scan_crx_policies
scan_crx_policies-rules crx [] ctx = refl
scan_crx_policies-rules crx (e ∷ es) ctx =
    rw (scan_step-rule crx e ctx, scan_crx_policies-rules crx es (scan_step crx e ctx).1) refl

-- Other access counts in the table.
pub Keeps-table :
    (m : Machine) (t : PolicyTable) (es : List PolicyEntry)
    → m.table ≡ some t
    → map rule es ≡ map rule t.policy_entry
    → Keeps m (record m { table = some (record t { policy_entry = es }) })
unfolding rules rules_of
Keeps-table m t es h e = record {
  rules_kept =
      ap (λ es. some (record t { policy_entry = es })) e
      ∙ sym
          (ap (λ (o : Option PolicyTable). elim o [ none ↦ none | some t ↦ some (rules_of t) ]) h);
  immutable_kept = refl;
  init_kept = refl;
  fault_kept = λ _. refl;
}

-- A null table that is used.
pub Keeps-fault : (m : Machine) → m.table ≡ none → Keeps m (record m { fault = true })
unfolding rules
Keeps-fault m h = record {
  rules_kept = refl;
  immutable_kept = refl;
  init_kept = refl;
  fault_kept = λ p. absurd (p (rw h refl));
}
