-- ===== src/Handler/Invariant.antt =====
-- What an initialised machine is: the policy table of handler/policy.c apart from access counts.
pub mod Messages
pub mod Sequences
pub mod Immutable
use ikgt_usage.Base.{
  ◌≡◌, ◌≢◌, ◌⊎◌, inl, inr, refl, sym, ap, subst, ◌∙◌, ◌↔◌, suc, true, false, List, [], ◌∷◌, map,
  Option, none, some, arith, Option-cases, length, ℕ, ◌==◌, if◌then◌else◌,
}
use ikgt_usage.PolicyCommon.{PolicyUpdateRec, PolicyMessage}
use ikgt_usage.PolicyCommon.Resource.{resource_id_unknown}
use ikgt_usage.Handler.Entry.{PolicyEntry, PolicyTable}
use ikgt_usage.Handler.Api.{EventInfo, EventData, mem, cpu, msg, other_event, Env, allow}
use ikgt_usage.Handler.Machine.{Machine}
use ikgt_usage.Handler.Table.{empty_table, policy_entry_add, policy_entry_del, policy_msg_to_entry}
use ikgt_usage.Handler.Table.Lookup.{lookup, used, IsUnique, IsValid}
use ikgt_usage.Handler.Table.Laws.{empty_table-IsValid, add-IsValid, del-IsValid}
use ikgt_usage.Handler.Frame.{rule, rules, rules_of, Keeps, Keeps-same, Keeps-trans, Keeps-refl}

-- Validity does not look at access counts.
pub lookup-rule :
    (id : ℕ) (es : List PolicyEntry)
    → lookup id (map rule es) ≡ elim (lookup id es) [ none ↦ none | some e ↦ some (rule e) ]
unfolding lookup
lookup-rule id [] = refl
lookup-rule id (e ∷ es) = ground (arith, lookup-rule id es)

used-rule : (es : List PolicyEntry) → used (map rule es) ≡ used es
unfolding used
used-rule [] = refl
used-rule (e ∷ es) = ground (arith, used-rule es)

length-rule : (es : List PolicyEntry) → length (map rule es) ≡ length es
length-rule [] = refl
length-rule (e ∷ es) = ap suc (length-rule es)

IsUnique-rule : (es : List PolicyEntry) → IsUnique es ↔ IsUnique (map rule es)
IsUnique-rule [] = (λ _. tt, λ _. tt)
IsUnique-rule (e ∷ es) = (
  λ u. ground (arith, u, lookup-rule e.resource_id es, (IsUnique-rule es).0),
  λ u. ground (arith, u, lookup-rule e.resource_id es, (IsUnique-rule es).1),
)

pub IsValid-rules_of : (t : PolicyTable) → IsValid t ↔ IsValid (rules_of t)
unfolding rules_of
IsValid-rules_of t = (
  λ v. record {
    size = length-rule t.policy_entry ∙ v.size;
    unique = (IsUnique-rule t.policy_entry).0 v.unique;
    counted = v.counted ∙ sym (used-rule t.policy_entry);
  },
  λ v. record {
    size = sym (length-rule t.policy_entry) ∙ v.size;
    unique = (IsUnique-rule t.policy_entry).1 v.unique;
    counted = v.counted ∙ used-rule t.policy_entry;
  },
)

-- An initialised machine with a valid table that has used no null table.
pub record IsRunning (m : Machine) : Type 0 where
  pub initialised : m.init_status ≡ true
  pub loaded : (t : PolicyTable) × (rules m ≡ some t) × IsValid t
  pub no_fault : m.fault ≡ false

pub Keeps-IsRunning : (m m' : Machine) → Keeps m m' → IsRunning m → IsRunning m'
Keeps-IsRunning m m' k r = record {
  initialised = k.init_kept ∙ r.initialised;
  loaded = (r.loaded.0, k.rules_kept ∙ r.loaded.1, r.loaded.2);
  no_fault = k.fault_kept (λ q. ground (arith, r.loaded.1, q)) ∙ r.no_fault;
}
