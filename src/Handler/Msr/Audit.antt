-- ===== src/Handler/Msr/Audit.antt =====
-- handler/cpu_msr.c: what a write leaves in the access counts, in the counters and in the log.
use ikgt_usage.Base.{
  ℕ, ◌+◌, ◌≡◌, ◌≢◌, refl, sym, ap, subst, ◌∙◌, List, [], ◌∷◌, Option, none, some, arith,
  if◌then◌else◌, u64,
}
use native.Mathlib.Decide.{ℕ_discrete}
use ikgt_usage.PolicyCommon.Resource.{resource_id_unknown}
use ikgt_usage.Handler.Entry.{
  PolicyEntry, PolicyTable, policy_entry_w_has_log, policy_entry_inc_access_count,
}
use ikgt_usage.Handler.Api.{Env, EventInfo}
use ikgt_usage.Handler.Machine.{Machine, PolicyCounters}
use ikgt_usage.Handler.MaskTables.{ia32_msr_invalid}
use ikgt_usage.Handler.Log.{log_event}
use ikgt_usage.Handler.Table.Lookup.{lookup, replace_first}
use ikgt_usage.Handler.Crx.Scan.{total}
use ikgt_usage.Handler.Crx.Audit.{log_event-frame, log_event-log}
use ikgt_usage.Handler.Msr.{
  res_id_to_msr, find_msr_policy, found_msr, scan_msr_slots, process_msr_policy, apply_msr_action,
}
use ikgt_usage.Handler.Msr.Decision.{res_id_to_msr_inj}

-- What a write of the register of the resource `id` leaves, from the machine `m` with the table `t`.
pub record MsrAudited (env : Env) (info : EventInfo) (id : ℕ) (t : PolicyTable) (m m' : Machine)
    : Type 0 where
  pub accesses :
      m'.table
      ≡ some (record t {
        policy_entry = replace_first id policy_entry_inc_access_count t.policy_entry;
      })
  pub log : m'.log ≡ elim (lookup id t.policy_entry) [
    | none ↦ m.log
    | some e ↦ if policy_entry_w_has_log e then (log_event env info m).log else m.log
  ]
  pub outcomes :
      u64 (total m'.msr_counters)
      ≡ u64 (total m.msr_counters + elim (lookup id t.policy_entry) [ none ↦ 0 | some _ ↦ 1 ])

replace_first_absent :
    (id : ℕ) (f : PolicyEntry → PolicyEntry) (es : List PolicyEntry)
    → lookup id es ≡ none
    → replace_first id f es ≡ es
unfolding lookup replace_first
replace_first_absent id f [] absent = refl
replace_first_absent id f (e ∷ es) absent = ground (arith, absent, replace_first_absent id f es)

action-total :
    (e : PolicyEntry) (value : ℕ) (c : PolicyCounters)
    → u64 (total (apply_msr_action e value c).1) ≡ u64 (total c + 1)
unfolding apply_msr_action
action-total e value c = ground arith

-- The loop finds the entry of the resource, and raises the access count of that slot.
find_msr_policy_lem :
    (id : ℕ) (es : List PolicyEntry)
    → id ≢ resource_id_unknown
    → res_id_to_msr id ≢ ia32_msr_invalid
    → find_msr_policy (res_id_to_msr id) es ≡ elim (lookup id es) [
      | none ↦ none
      | some e ↦ some (e, replace_first id policy_entry_inc_access_count es)
    ]
unfolding find_msr_policy lookup replace_first
find_msr_policy_lem id [] named known = refl
find_msr_policy_lem id (x ∷ es) named known = elim (ℕ_discrete x.resource_id id) [
  | yes p ↦ ground (arith, named, p)
  | no ne ↦
      let other : res_id_to_msr x.resource_id ≢ res_id_to_msr id =
        λ q. ne (res_id_to_msr_inj x.resource_id id q (λ z. known (sym q ∙ z))) in
      ground (arith, ne, other, find_msr_policy_lem id es named known)
]

module _ (env : Env) (info : EventInfo) (id value : ℕ) (t : PolicyTable) (m : Machine)
    (loaded : m.table ≡ some t) where
  found-MsrAudited :
      (o : Option PolicyEntry)
      → lookup id t.policy_entry ≡ o
      → MsrAudited env info id t m (
          found_msr env info value t
            (elim o [
              | none ↦ none
              | some e ↦ some (e, replace_first id policy_entry_inc_access_count t.policy_entry)
            ])
            m)
  unfolding found_msr process_msr_policy
  found-MsrAudited none absent = record {
    accesses =
        loaded
        ∙ ap (λ es. some (record t { policy_entry = es }))
            (sym (replace_first_absent id policy_entry_inc_access_count t.policy_entry absent));
    log = ground (arith, absent);
    outcomes = ground (arith, absent);
  }
  found-MsrAudited (some e) there =
      let slots : Machine = record m {
        table = some (record t {
          policy_entry = replace_first id policy_entry_inc_access_count t.policy_entry;
        });
      } in
      let frame = log_event-frame env info slots in
      let same = log_event-log env info m slots refl refl in
      let logged : Machine = if policy_entry_w_has_log e then log_event env info slots else slots in
      let counters : logged.msr_counters ≡ m.msr_counters = ground (arith, frame) in
      record {
        accesses = ground (arith, frame);
        log = ground (arith, there, same);
        outcomes =
            action-total e value logged.msr_counters
            ∙ (ap (λ c. u64 (total c + 1)) counters
                ∙ ap
                    (λ (o : Option PolicyEntry).
                      u64 (total m.msr_counters + elim o [ none ↦ 0 | some _ ↦ 1 ]))
                    (sym there));
      }

  -- The loop leaves the entry of the resource, if there is one, with one more access.
  pub scan_msr_slots-MsrAudited :
      id ≢ resource_id_unknown
      → res_id_to_msr id ≢ ia32_msr_invalid
      → MsrAudited env info id t m (scan_msr_slots env info value (res_id_to_msr id) (some t) m)
  unfolding scan_msr_slots
  scan_msr_slots-MsrAudited named known =
      subst (λ o. MsrAudited env info id t m (found_msr env info value t o m))
        (sym (find_msr_policy_lem id t.policy_entry named known))
        (found-MsrAudited (lookup id t.policy_entry) refl)
