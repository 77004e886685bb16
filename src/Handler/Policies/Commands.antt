-- ===== src/Handler/Policies/Commands.antt =====
-- handler/message.c and handler/policy.c: a command on the table, as what it does to the policies.
use ikgt_usage.Base.{
  ℕ, ◌≢◌, refl, sym, ap, subst, ◌∙◌, Bool, true, false, none, some, ◌==◌, if◌then◌else◌, ◌&&◌,
  Bool-cases, inl, inr,
}
use ikgt_usage.PolicyCommon.{
  PolicyUpdateRec, PolicyMessage, policy_init_log, policy_entry_enable, policy_entry_disable,
  policy_make_immutable, policy_debug_command,
}
use ikgt_usage.PolicyCommon.Resource.{resource_id_unknown}
use ikgt_usage.Handler.Api.{Env, EventInfo}
use ikgt_usage.Handler.Machine.{Machine}
use ikgt_usage.Handler.Table.Room.{IsResource}
use ikgt_usage.Handler.Events.{handle_command}
use ikgt_usage.Handler.Frame.{rules, Keeps}
use ikgt_usage.Handler.Invariant.{IsRunning}
use ikgt_usage.Handler.Policy.{
  policy_msg_add_to, policy_msg_del_to, policy_msg_add, policy_msg_del, handle_msg_policy_enable,
  handle_msg_policy_disable, handle_msg_policy_make_immutable, policy_debug, policy_sanity_check,
}
use ikgt_usage.Handler.Invariant.Messages.{table_of, start_log-Keeps}
use ikgt_usage.Handler.Policies.{
  Policies, policies, policies_in, policy_in, set_policy, fix_policies, apply_message,
  policies-Keeps,
}
use ikgt_usage.Handler.Policies.Tables.{
  Ranged, Holds, set_policy_fixed, unchanged, add_to-Holds, del_to-Holds,
}

handle_msg_policy_enable-Holds :
    (env : Env) (u : PolicyUpdateRec) (m : Machine)
    → IsRunning m
    → Ranged m
    → (u.resource_id ≢ resource_id_unknown → IsResource u.resource_id)
    → Holds
        (set_policy u.resource_id (some (policy_in env u)) (policies m))
        (handle_msg_policy_enable env u m)
unfolding handle_msg_policy_enable policy_sanity_check policy_msg_add
handle_msg_policy_enable-Holds env u m run r named =
    let p : Policies = set_policy u.resource_id (some (policy_in env u)) (policies m) in
    elim (Bool-cases m.immutable) [
      | inl fixed ↦
          subst (λ b. Holds p (if b then m else (policy_msg_add_to env u m.table m).1)) (sym fixed)
            (unchanged _ m r
              (set_policy_fixed u.resource_id (some (policy_in env u)) (policies m) fixed))
      | inr i ↦
          let (t, h, v) = table_of m run in
          subst (λ b. Holds p (if b then m else (policy_msg_add_to env u m.table m).1)) (sym i)
            (subst (λ o. Holds p (policy_msg_add_to env u o m).1) (sym h)
              (add_to-Holds env u t m i h v r named))
    ]

handle_msg_policy_disable-Holds :
    (env : Env) (u : PolicyUpdateRec) (m : Machine)
    → IsRunning m
    → Ranged m
    → Holds (set_policy u.resource_id none (policies m)) (handle_msg_policy_disable env u m)
unfolding handle_msg_policy_disable policy_sanity_check policy_msg_del
handle_msg_policy_disable-Holds env u m run r =
    let p : Policies = set_policy u.resource_id none (policies m) in
    elim (Bool-cases m.immutable) [
      | inl fixed ↦
          subst (λ b. Holds p (if b then m else (policy_msg_del_to env u m.table m).1)) (sym fixed)
            (unchanged _ m r (set_policy_fixed u.resource_id none (policies m) fixed))
      | inr i ↦
          let (t, h, v) = table_of m run in
          subst (λ b. Holds p (if b then m else (policy_msg_del_to env u m.table m).1)) (sym i)
            (subst (λ o. Holds p (policy_msg_del_to env u o m).1) (sym h)
              (del_to-Holds env u t m i h v r))
    ]

make_immutable-Holds :
    (m : Machine)
    → Ranged m
    → Holds (fix_policies (policies m)) (handle_msg_policy_make_immutable m)
unfolding handle_msg_policy_make_immutable fix_policies rules
make_immutable-Holds m r = elim (Bool-cases m.immutable) [
  | inl fixed ↦
      subst
        (λ b. Holds (fix_policies (policies m)) (if b then m else record m { immutable = true }))
        (sym fixed)
        (unchanged _ m r
          (ap (λ b. record { policy = policies_in (rules m); immutable = b }) (sym fixed)))
  | inr i ↦
      subst
        (λ b. Holds (fix_policies (policies m)) (if b then m else record m { immutable = true }))
        (sym i) (record { same = refl; ranged = r })
]

policy_debug-Holds :
    (parameter : ℕ) (m : Machine)
    → IsRunning m
    → Ranged m
    → Holds
        (if parameter == 400 then fix_policies (policies m) else policies m)
        (policy_debug parameter m)
unfolding policy_debug
policy_debug-Holds parameter m run r = elim (Bool-cases (parameter == 400)) [
  | inl e ↦ rw e (make_immutable-Holds m r)
  | inr e ↦
      let (t, h, v) = table_of m run in
      rw e (
        subst (λ o. Holds (policies m) (elim o [ none ↦ record m { fault = true } | some _ ↦ m ]))
          (sym h) (unchanged (policies m) m r refl))
]

-- A branch on both sides.
branch :
    (b : Bool) (p q : Policies) (m n : Machine)
    → Holds p m
    → Holds q n
    → Holds (if b then p else q) (if b then m else n)
branch true p q m n h k = h
branch false p q m n h k = k

-- A machine with the same policies, as far as the tables go.
pub Keeps-Holds : (m m' : Machine) → Keeps m m' → Ranged m → Holds (policies m) m'
Keeps-Holds m m' k r = record {
  same = policies-Keeps m m' k;
  ranged = λ t h. r t (sym k.rules_kept ∙ h);
}

pub handle_command-Holds :
    (env : Env) (info : EventInfo) (message : PolicyMessage) (m : Machine)
    → IsRunning m
    → Ranged m
    → (message.policy_data.resource_id ≢ resource_id_unknown
        → IsResource message.policy_data.resource_id)
    → Holds (apply_message env message (policies m)) (handle_command env info message m)
unfolding handle_command apply_message
handle_command-Holds env info message m run r named =
    branch (message.command == policy_init_log) _ _ _ _
      (Keeps-Holds m _ (start_log-Keeps env info message.log_param m) r)
      (branch (message.command == policy_entry_enable) _ _ _ _
        (handle_msg_policy_enable-Holds env message.policy_data m run r named)
        (branch (message.command == policy_entry_disable) _ _ _ _
          (handle_msg_policy_disable-Holds env message.policy_data m run r)
          (branch (message.command == policy_make_immutable) _ _ _ _ (make_immutable-Holds m r) (
            branch (env.debug && message.command == policy_debug_command) _ _ _ _
              (policy_debug-Holds message.debug_parameter m run r)
              (unchanged (policies m) m r refl)))))
