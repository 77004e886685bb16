-- ===== src/Handler/Policies/Tables.antt =====
-- handler/policy.c: an entry added to the table or deleted from it, as a change of the policies.
use mathlib.Core.Path.{fun_ext}
use ikgt_usage.Base.{
  ℕ, ◌≡◌, ◌≢◌, ◌↔◌, refl, sym, ap, subst, ◌∙◌, true, false, List, [], ◌∷◌, map, Option, none, some,
  arith, ==_false,
}
use native.Mathlib.Decide.{ℕ_discrete}
use ikgt_usage.PolicyCommon.{PolicyUpdateRec}
use ikgt_usage.PolicyCommon.Resource.{resource_id_unknown}
use ikgt_usage.Handler.Entry.{PolicyEntry, PolicyTable}
use ikgt_usage.Handler.Api.{Env}
use ikgt_usage.Handler.Machine.{Machine}
use ikgt_usage.Handler.Table.{policy_entry_add, policy_entry_del, policy_msg_to_entry}
use ikgt_usage.Handler.Table.Lookup.{IsValid}
use ikgt_usage.Handler.Table.Room.{IsResource, InRange}
use ikgt_usage.Handler.Table.Laws.{lookup-add, lookup-del, add-InRange, del-InRange}
use ikgt_usage.Handler.Frame.{rule, rules, rules_of}
use ikgt_usage.Handler.Invariant.{lookup-rule}
use ikgt_usage.Handler.Policy.{policy_msg_add_to, policy_msg_del_to}
use ikgt_usage.Handler.Policies.{Policies, policies, policies_in, policy_in, change, set_policy}

pub InRange-rule : (es : List PolicyEntry) → InRange es ↔ InRange (map rule es)
InRange-rule [] = (λ _. tt, λ _. tt)
InRange-rule (e ∷ es) = (λ r. (r.0, (InRange-rule es).0 r.1), λ r. (r.0, (InRange-rule es).1 r.1))

-- The policies after an entry of a resource is added to a table, and after it is deleted.
policies_in-add :
    (entry : PolicyEntry) (t : PolicyTable)
    → IsValid t
    → InRange t.policy_entry
    → IsResource entry.resource_id
    → policies_in (some (rules_of (policy_entry_add entry t)))
      ≡ change entry.resource_id (some (rule entry)) (policies_in (some (rules_of t)))
unfolding rules_of
policies_in-add entry t v r named = fun_ext λ j. elim (ℕ_discrete j resource_id_unknown) [
  | yes p ↦ ground (arith, p, named)
  | no ne ↦ ground (
    arith,
    ne,
    lookup-rule j (policy_entry_add entry t).policy_entry,
    lookup-rule j t.policy_entry,
    lookup-add entry t j v r named ne,
  )
]

policies_in-del :
    (entry : PolicyEntry) (t : PolicyTable)
    → IsValid t
    → entry.resource_id ≢ resource_id_unknown
    → policies_in (some (rules_of (policy_entry_del entry t)))
      ≡ change entry.resource_id none (policies_in (some (rules_of t)))
unfolding rules_of
policies_in-del entry t v named = fun_ext λ j. elim (ℕ_discrete j resource_id_unknown) [
  | yes p ↦ ground (arith, p, named)
  | no ne ↦ ground (
    arith,
    ne,
    lookup-rule j (policy_entry_del entry t).policy_entry,
    lookup-rule j t.policy_entry,
    lookup-del entry t j v named ne,
  )
]

-- Every slot of the table is free or a resource's.
abbrev pub Ranged : Machine → Type 0
Ranged m = (t : PolicyTable) → rules m ≡ some t → InRange t.policy_entry

-- The policies are `p`, from a table whose slots are free or a resource's.
pub record Holds (p : Policies) (m : Machine) : Type 0 where
  pub same : policies m ≡ p
  pub ranged : Ranged m

-- A machine with another table.
with_table :
    (m m' : Machine) (t t' : PolicyTable) (f : ℕ → Option PolicyEntry)
    → m'.table ≡ some t'
    → m'.immutable ≡ m.immutable
    → policies_in (some (rules_of t')) ≡ f
    → InRange t'.policy_entry
    → Holds (record { policy = f; immutable = m.immutable }) m'
unfolding rules rules_of
with_table m m' t t' f h i e r = record {
  same =
      ap
        (λ (o : Option PolicyTable). record {
          policy = policies_in (elim o [ none ↦ none | some t ↦ some (rules_of t) ]);
          immutable = m'.immutable;
        })
        h
      ∙ (ap (λ g. record { policy = g; immutable = m'.immutable }) e
          ∙ ap (λ b. record { policy = f; immutable = b }) i);
  ranged = λ t1 q.
      let equal : rules_of t' ≡ t1 = ground (arith, h, q) in
      subst (λ (x : PolicyTable). InRange x.policy_entry) equal
        ((InRange-rule t'.policy_entry).0 r);
}

-- The three cases of a change.
pub set_policy_fixed :
    (id : ℕ) (new : Option PolicyEntry) (p : Policies)
    → p.immutable ≡ true
    → set_policy id new p ≡ p
unfolding set_policy
set_policy_fixed id new p h = rw h refl

set_policy_unnamed :
    (id : ℕ) (new : Option PolicyEntry) (p : Policies)
    → id ≡ resource_id_unknown
    → set_policy id new p ≡ p
unfolding set_policy
set_policy_unnamed id new p h = ground (arith, h)

set_policy_open :
    (id : ℕ) (new : Option PolicyEntry) (p : Policies)
    → p.immutable ≡ false
    → id ≢ resource_id_unknown
    → set_policy id new p ≡ record p { policy = change id new p.policy }
unfolding set_policy
set_policy_open id new p h ne = ground (arith, h, ne)

pub unchanged : (p : Policies) (m : Machine) → Ranged m → p ≡ policies m → Holds p m
unchanged p m r e = record { same = sym e; ranged = r }

-- The slots of the table of a machine.
in_table : (m : Machine) (t : PolicyTable) → m.table ≡ some t → Ranged m → InRange t.policy_entry
unfolding rules rules_of
in_table m t h r = (InRange-rule t.policy_entry).1 (r (rules_of t) (ground (arith, h)))

policies_of_table :
    (m : Machine) (t : PolicyTable)
    → m.table ≡ some t
    → policies_in (rules m) ≡ policies_in (some (rules_of t))
unfolding rules
policies_of_table m t h =
    ap
      (λ (o : Option PolicyTable).
        policies_in (elim o [ none ↦ none | some t ↦ some (rules_of t) ]))
      h

module _ (env : Env) (u : PolicyUpdateRec) (t : PolicyTable) (m : Machine) (i : m.immutable ≡ false)
    (h : m.table ≡ some t) (v : IsValid t) (r : Ranged m) where
  pub add_to-Holds :
      (u.resource_id ≢ resource_id_unknown → IsResource u.resource_id)
      → Holds
          (set_policy u.resource_id (some (policy_in env u)) (policies m))
          (policy_msg_add_to env u (some t) m).1
  unfolding policy_msg_add_to policy_msg_to_entry
  add_to-Holds named = elim (ℕ_discrete u.resource_id resource_id_unknown) [
    | yes p ↦
        rw (set_policy_unnamed u.resource_id (some (policy_in env u)) (policies m) p)
          (rw p (unchanged (policies m) m r refl))
    | no ne ↦
        let entry : PolicyEntry = policy_msg_to_entry u env.stack_entry in
        rw (set_policy_open u.resource_id (some (policy_in env u)) (policies m) i ne) (
          rw (==_false u.resource_id resource_id_unknown ne) (
            with_table m _ t (policy_entry_add entry t) _ refl refl
              (policies_in-add entry t v (in_table m t h r) (named ne)
                ∙ ap (change u.resource_id (some (policy_in env u)))
                    (sym (policies_of_table m t h)))
              (add-InRange entry t (named ne) (in_table m t h r))))
  ]

  pub del_to-Holds :
      Holds (set_policy u.resource_id none (policies m)) (policy_msg_del_to env u (some t) m).1
  unfolding policy_msg_del_to policy_msg_to_entry
  del_to-Holds = elim (ℕ_discrete u.resource_id resource_id_unknown) [
    | yes p ↦
        rw (set_policy_unnamed u.resource_id none (policies m) p)
          (rw p (unchanged (policies m) m r refl))
    | no ne ↦
        let entry : PolicyEntry = policy_msg_to_entry u env.stack_entry in
        rw (set_policy_open u.resource_id none (policies m) i ne) (
          rw (==_false u.resource_id resource_id_unknown ne) (
            with_table m _ t (policy_entry_del entry t) _ refl refl
              (policies_in-del entry t v ne
                ∙ ap (change u.resource_id none) (sym (policies_of_table m t h)))
              (del-InRange entry t (in_table m t h r))))
  ]
