-- ===== src/Handler/Msr/Wrmsr.antt =====
-- handler/cpu_msr.c: the registers that the instruction WRMSR takes its index and its value from.
use ikgt_usage.Base.{
  u32, Option-cases, inl, inr, ℕ, ◌≡◌, ◌≢◌, ◌∙◌, ap, true, [], ◌∷◌, ◌++◌, some, none, arith,
}
use ikgt_usage.Base.Join.{join, join_lem}
use ikgt_usage.Handler.Api.{
  Env, Trace, VmcsReg, gp_rax, gp_rcx, gp_rdx, malloc, free, read_guest_registers, is_success,
}
use ikgt_usage.Handler.MaskTables.{ia32_msr_invalid}
use ikgt_usage.Handler.Utils.{read_guest_reg}
use ikgt_usage.Handler.Msr.{
  find_msr, res_id_to_msr, msr_operands, make_u64, msr_guest_reg, read_current,
}

-- The guest executes WRMSR: after the calls `t`, RCX is `rcx`, and RAX and RDX are `rax` and `rdx`; there is
-- memory for each read of a register, and the hypervisor answers it.
pub record IsWrmsr (env : Env) (t : Trace) (rcx rax rdx : ℕ) : Type 0 where
  pub memory : (later : Trace) → env.malloc_succeeds (later ++ t) ≡ true
  pub answers :
      (later : Trace) (r : VmcsReg) → is_success (env.read_register (later ++ t) r).0 ≡ true
  pub index : (later : Trace) → (env.read_register (later ++ t) gp_rcx).1 ≡ rcx
  pub low : (later : Trace) → (env.read_register (later ++ t) gp_rax).1 ≡ rax
  pub high : (later : Trace) → (env.read_register (later ++ t) gp_rdx).1 ≡ rdx

-- The calls of one read.
abbrev reading : VmcsReg → Trace → Trace
reading r t = free ∷ read_guest_registers r ∷ malloc true ∷ t

read_guest_reg_lem :
    (env : Env) (r : VmcsReg) (t : Trace)
    → env.malloc_succeeds t ≡ true
    → is_success (env.read_register (malloc true ∷ t) r).0 ≡ true
    → read_guest_reg env r t ≡ (env.read_register (malloc true ∷ t) r, reading r t)
unfolding read_guest_reg
read_guest_reg_lem env r t m s = ground (arith, m, s)

-- The switch has a case for each register that the table knows.
switch_lem :
    (id : ℕ) → res_id_to_msr id ≢ ia32_msr_invalid → msr_guest_reg (res_id_to_msr id) ≢ none
unfolding res_id_to_msr find_msr msr_guest_reg
switch_lem id known = ground (arith, known)

module _ (env : Env) (t : Trace) (rcx rax rdx : ℕ) (w : IsWrmsr env t rcx rax rdx) where
  read :
      (r : VmcsReg) (later : Trace)
      → read_guest_reg env r (later ++ t)
        ≡ (env.read_register (malloc true ∷ (later ++ t)) r, reading r (later ++ t))
  read r later =
      read_guest_reg_lem env r (later ++ t) (w.memory later) (w.answers (malloc true ∷ later) r)

  operands_lem :
      (r : VmcsReg)
      → msr_guest_reg rcx ≡ some r
      → (msr_operands env t).0 ≡ some (u32 rcx, join rdx rax)
  unfolding msr_operands read_current make_u64
  operands_lem r e =
      let t1 : Trace = reading gp_rax [] in
      let t2 : Trace = reading gp_rcx t1 in
      let t3 : Trace = reading gp_rdx t2 in
      ground (
        arith,
        e,
        read gp_rax [],
        read gp_rcx t1,
        read gp_rdx t2,
        read r t3,
        w.answers (malloc true ∷ []) gp_rax,
        w.answers (malloc true ∷ t1) gp_rcx,
        w.answers (malloc true ∷ t2) gp_rdx,
        w.answers (malloc true ∷ t3) r,
        w.low (malloc true ∷ []),
        w.index (malloc true ∷ t1),
        w.high (malloc true ∷ t2),
        join_lem rdx rax,
      )

-- What the handler reads for a WRMSR of the register of a resource that the table knows.
pub msr_operands-IsWrmsr :
    (env : Env) (t : Trace) (id rax rdx : ℕ)
    → res_id_to_msr id ≢ ia32_msr_invalid
    → IsWrmsr env t (res_id_to_msr id) rax rdx
    → (msr_operands env t).0 ≡ some (res_id_to_msr id, join rdx rax)
msr_operands-IsWrmsr env t id rax rdx known w =
    elim (Option-cases (msr_guest_reg (res_id_to_msr id))) [
      | inl n ↦ absurd (switch_lem id known n)
      | inr (r, e) ↦
          operands_lem env t (res_id_to_msr id) rax rdx w r e
          ∙ ap (λ i. some (i, join rdx rax)) (word id)
    ]
  where
    word : (id : ℕ) → u32 (res_id_to_msr id) ≡ res_id_to_msr id
    word id = unfold res_id_to_msr in omega arith
