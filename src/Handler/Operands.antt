-- ===== src/Handler/Operands.antt =====
-- The reads that handler/cpu_cr0.c and handler/cpu_cr4.c begin with.
use ikgt_usage.Base.{ℕ, Bool, true, false, ◌&&◌, Option, none, some, if◌then◌else◌}
use ikgt_usage.Handler.Api.{is_success, CpuReg, unknown, VmcsReg, Env, Io, pure, ◌>>=◌}
use ikgt_usage.Handler.Utils.{read_guest_reg, get_ikgt_vmcs_guest_reg_id}

-- `IKGT_CPU_REG_UNKNOWN == operand_reg`
abbrev pub is_unknown : CpuReg → Bool
is_unknown unknown = true
is_unknown _ = false

-- The register of the operand with the current value and the guest's. An operand that is unknown or
-- has no register, or a failed read, ends the handler.
unfoldable pub read_operands : Env → VmcsReg → CpuReg → Io (Option (VmcsReg × (ℕ × ℕ)))
unfolding read_guest_reg get_ikgt_vmcs_guest_reg_id
read_operands env register operand_reg =
    let operand = get_ikgt_vmcs_guest_reg_id operand_reg in
    if is_unknown operand_reg then pure none else (do
      cur_value ← read_guest_reg env register
      if is_success cur_value.0 && is_success operand.0
          then (do
            new_value ← read_guest_reg env operand.1
            pure (
                if is_success new_value.0
                then some (operand.1, (cur_value.1, new_value.1))
                else none))
          else pure none)
