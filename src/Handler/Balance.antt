-- ===== src/Handler/Balance.antt =====
-- The blocks allocated by the wrappers of handler/utils.c and by the reads of the handlers.
pub mod Events
pub mod Sequences
use ikgt_usage.Base.{
  ℕ, zero, suc, ◌+◌, ◌-◌, ◌≡◌, refl, true, false, Bool, [], ◌∷◌, Option, none, some, arith, u32,
  u64, min, if◌then◌else◌, if_both, ltb,
}
use ikgt_usage.PolicyCommon.{page_4kb}
use ikgt_usage.Handler.Api.{
  Env, Trace, malloc, free, Status, success, error, allocate_failed, pure, ◌>>=◌, ◌>>◌, ikgt_free,
  VmcsReg, CpuReg, gva_to_gpa, gp_rax, gp_rcx, gp_rdx, Io,
}
use ikgt_usage.Handler.Utils.{
  with_block, get_ikgt_vmcs_guest_reg_id, read_guest_reg, write_guest_reg, translate_pages,
  update_pages, util_monitor_memory, monitor_blocks, page_count, page_start,
  ikgt_memory_max_block_size, util_monitor_memory_ex, util_monitor_cpu_events, util_monitor_msr,
}
use ikgt_usage.Handler.Operands.{read_operands}
use ikgt_usage.Handler.Msr.{msr_operands, read_current, msr_guest_reg, make_u64}

-- The number of blocks allocated and not freed.
unfoldable pub live : Trace → ℕ
live [] = 0
live (malloc true ∷ t) = suc (live t)
live (free ∷ t) = live t - 1
live (_ ∷ t) = live t

-- Calls after which as many blocks are allocated as before.
abbrev pub IsBalanced : {A : Type 0} → Io A → Type 0
IsBalanced io = (t : Trace) → live (io t).1 ≡ live t

with_block-IsBalanced :
    {A : Type 0} (env : Env) (failed : A) (body : Io A)
    → IsBalanced body
    → IsBalanced (with_block env failed body)
unfolding live
with_block-IsBalanced env failed body h t = allocated (env.malloc_succeeds t)
  where
    allocated :
        (b : Bool)
        → live
            ((if b then (body >>= λ result. ikgt_free env >> pure result) else pure failed)
              (malloc b ∷ t)).1
          ≡ live t
    allocated true = omega (arith, h (malloc true ∷ t))
    allocated false = refl

pub read_guest_reg-IsBalanced : (env : Env) (reg : VmcsReg) → IsBalanced (read_guest_reg env reg)
unfolding read_guest_reg live
read_guest_reg-IsBalanced env reg t = ground arith

pub write_guest_reg-IsBalanced :
    (env : Env) (reg : VmcsReg) (v : ℕ) → IsBalanced (write_guest_reg env reg v)
unfolding write_guest_reg live
write_guest_reg-IsBalanced env reg v t = ground arith

translate_pages-IsBalanced :
    (env : Env) (n start permission : ℕ) → IsBalanced (translate_pages env n start permission)
unfolding translate_pages live
translate_pages-IsBalanced env zero start permission t = refl
translate_pages-IsBalanced env (suc n) start permission t = ground (
  arith,
  translate_pages-IsBalanced env n (u64 (start + page_4kb)) permission (gva_to_gpa start ∷ t),
)

update_pages-IsBalanced :
    (env : Env) (n start permission : ℕ) → IsBalanced (update_pages env n start permission)
unfolding update_pages live
update_pages-IsBalanced env n start permission t =
    ground (arith, translate_pages-IsBalanced env n start permission t)

util_monitor_memory-IsBalanced :
    (env : Env) (start size permission : ℕ)
    → IsBalanced (util_monitor_memory env start size permission)
unfolding util_monitor_memory live
util_monitor_memory-IsBalanced env start size permission =
    if_both IsBalanced (ltb env.addrinfo_max_count (page_count size)) (pure error) _ (λ t. refl)
      (with_block-IsBalanced env allocate_failed
        (with_block env allocate_failed
          (update_pages env (page_count size) (page_start start) permission))
        (with_block-IsBalanced env allocate_failed
          (update_pages env (page_count size) (page_start start) permission)
          (update_pages-IsBalanced env (page_count size) (page_start start) permission)))

monitor_blocks-IsBalanced :
    (env : Env) (fuel start size permission : ℕ) (status : Status)
    → IsBalanced (monitor_blocks env fuel start size permission status)
unfolding monitor_blocks
monitor_blocks-IsBalanced env zero start size permission status t = refl
monitor_blocks-IsBalanced env (suc fuel) start size permission status t =
    let blksize : ℕ = min size (ikgt_memory_max_block_size env) in
    ground (
      arith,
      util_monitor_memory-IsBalanced env start blksize permission t,
      monitor_blocks-IsBalanced env fuel (u64 (start + blksize)) (size - blksize) permission success
          (util_monitor_memory env start blksize permission t).1,
    )

pub util_monitor_memory_ex-IsBalanced :
    (env : Env) (start size permission : ℕ)
    → IsBalanced (util_monitor_memory_ex env start size permission)
unfolding util_monitor_memory_ex
util_monitor_memory_ex-IsBalanced env start size permission t =
    monitor_blocks-IsBalanced env size start size permission _ t

pub util_monitor_cpu_events-IsBalanced :
    (env : Env) (a b mask : ℕ) (reg : CpuReg) (enable : Bool)
    → IsBalanced (util_monitor_cpu_events env a b mask reg enable)
unfolding util_monitor_cpu_events live
util_monitor_cpu_events-IsBalanced env a b mask reg enable t = ground arith

pub util_monitor_msr-IsBalanced :
    (env : Env) (id : ℕ) (enable : Bool) → IsBalanced (util_monitor_msr env id enable)
unfolding util_monitor_msr live
util_monitor_msr-IsBalanced env id enable t = ground arith

pub read_operands-IsBalanced :
    (env : Env) (register : VmcsReg) (operand : CpuReg)
    → IsBalanced (read_operands env register operand)
unfolding read_operands
read_operands-IsBalanced env register operand t = ground (
  arith,
  read_guest_reg-IsBalanced env register t,
  read_guest_reg-IsBalanced env (get_ikgt_vmcs_guest_reg_id operand).1
      (read_guest_reg env register t).1,
)

read_current-IsBalanced :
    (env : Env) (o : Option VmcsReg) (id value : ℕ) → IsBalanced (read_current env o id value)
unfolding read_current
read_current-IsBalanced env none id value t = refl
read_current-IsBalanced env (some register) id value t = read_guest_reg-IsBalanced env register t

pub msr_operands-IsBalanced : (env : Env) → IsBalanced (msr_operands env)
unfolding msr_operands
msr_operands-IsBalanced env t =
    let rax = read_guest_reg env gp_rax t in
    let rcx = read_guest_reg env gp_rcx rax.1 in
    let rdx = read_guest_reg env gp_rdx rcx.1 in
    ground (
      arith,
      read_guest_reg-IsBalanced env gp_rax t,
      read_guest_reg-IsBalanced env gp_rcx rax.1,
      read_guest_reg-IsBalanced env gp_rdx rcx.1,
      read_current-IsBalanced env (msr_guest_reg rcx.0.1) (u32 rcx.0.1) (make_u64 rdx.0.1 rax.0.1)
          rdx.1,
    )
