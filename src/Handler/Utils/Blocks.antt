-- ===== src/Handler/Utils/Blocks.antt =====
-- handler/utils.c: the rounds of the loop of `util_monitor_memory_ex`.
use ikgt_usage.Base.{ℕ, zero, suc, ◌+◌, ◌-◌, ◌≤◌, ◌<◌, ◌≡◌, refl, arith, min, u64, sym, ◌∙◌}
use native.Mathlib.Decide.{ℕ_discrete}
use ikgt_usage.Handler.Api.{Env, Status, success, error, pure}
use ikgt_usage.Handler.Utils.{monitor_blocks, util_monitor_memory_ex, ikgt_memory_max_block_size}

nothing_left :
    (env : Env) (fuel start size permission : ℕ) (status : Status)
    → size ≡ 0
    → monitor_blocks env fuel start size permission status ≡ pure status
unfolding monitor_blocks
nothing_left env zero start size permission status e = refl
nothing_left env (suc fuel) start size permission status e = simp e refl

any_fuel :
    (env : Env) (f g start size permission : ℕ) (status : Status)
    → 0 < env.addrinfo_max_count
    → size ≤ f
    → size ≤ g
    → monitor_blocks env f start size permission status
      ≡ monitor_blocks env g start size permission status
unfolding monitor_blocks
any_fuel env zero g start size permission status pos le le' =
    sym (nothing_left env g start size permission status (omega arith))
any_fuel env (suc f) zero start size permission status pos le le' =
    nothing_left env (suc f) start size permission status (omega arith)
any_fuel env (suc f) (suc g) start size permission status pos le le' = elim (ℕ_discrete size 0) [
  | yes e ↦
      nothing_left env (suc f) start size permission status e
      ∙ sym (nothing_left env (suc g) start size permission status e)
  | no ne ↦
      let blksize : ℕ = min size (ikgt_memory_max_block_size env) in
      let taken : 0 < blksize = omega (arith) in
      rw
        (any_fuel env f g (u64 (start + blksize)) (size - blksize) permission success pos
          (omega arith) (omega arith))
        refl
]

-- If IKGT_ADDRINFO_MAX_COUNT is not 0, the loop on a size ends within as many rounds as the size has
-- bytes: `util_monitor_memory_ex` is the loop with any larger bound on the rounds, with the same
-- status and the same calls.
pub util_monitor_memory_ex_enough :
    (env : Env) (fuel start size permission : ℕ)
    → 0 < env.addrinfo_max_count
    → size ≤ fuel
    → monitor_blocks env fuel start size permission error
      ≡ util_monitor_memory_ex env start size permission
unfolding util_monitor_memory_ex
util_monitor_memory_ex_enough env fuel start size permission pos le =
    any_fuel env fuel size start size permission error pos le (omega arith)
