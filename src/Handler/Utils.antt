-- ===== src/Handler/Utils.antt =====
-- handler/utils.c: the wrappers around the hypervisor's calls. Each allocates its parameter block,
-- makes the call and frees the block.
pub mod Blocks
pub mod Coverage
pub mod Pages
use ikgt_usage.Base.{
  ℕ, zero, suc, ◌+◌, ◌-◌, ◌*◌, ◌/◌, ◌%◌, Bool, List, [], ◌∷◌, min, ltb, ◌==◌, if◌then◌else◌, u32,
  u64,
}
use ikgt_usage.PolicyCommon.{page_4kb}
use ikgt_usage.Handler.Api.{
  Status, success, error, allocate_failed, is_success, CpuReg, rax, rbx, rcx, rdx, rdi, rsi, rbp,
  rsp, r8, r9, r10, r11, r12, r13, r14, r15, cr0, cr3, cr4, VmcsReg, gp_rax, gp_rbx, gp_rcx, gp_rdx,
  gp_rdi, gp_rsi, gp_rbp, gp_rsp, gp_r8, gp_r9, gp_r10, gp_r11, gp_r12, gp_r13, gp_r14, gp_r15,
  guest_cr0, guest_cr3, guest_cr4, num_of_regs, AddrItem, CpuEventParams, read_guest_registers,
  write_guest_registers, gva_to_gpa, update_page_permission, monitor_cpu_events, monitor_msr_writes,
  Env, Io, pure, ◌>>=◌, ◌>>◌, call, ikgt_malloc, ikgt_free,
}

-- `ikgt_malloc`, the return of `failed` if it gives NULL, and `ikgt_free` after the body.
abbrev pub with_block : {A : Type 0} → Env → A → Io A → Io A
with_block env failed body = do
  allocated ← ikgt_malloc env
  if allocated then (do result ← body; ikgt_free env; pure result) else pure failed

-- The status, and what `*value` holds afterwards.
unfoldable pub read_guest_reg : Env → VmcsReg → Io (Status × ℕ)
read_guest_reg env reg_id =
    with_block env (error, 0)
      do
        answer ← call (λ t. env.read_register t reg_id) (read_guest_registers reg_id)
        pure (answer.0, if is_success answer.0 then answer.1 else 0)

unfoldable pub write_guest_reg : Env → VmcsReg → ℕ → Io Status
write_guest_reg env reg_id value =
    with_block env error
      (call (λ t. env.write_register t reg_id value) (write_guest_registers reg_id value))

-- `g_cpu_reg_id_map_table`, with the default of `get_ikgt_vmcs_guest_reg_id`
unfoldable pub get_ikgt_vmcs_guest_reg_id : CpuReg → Status × VmcsReg
get_ikgt_vmcs_guest_reg_id rax = (success, gp_rax)
get_ikgt_vmcs_guest_reg_id rbx = (success, gp_rbx)
get_ikgt_vmcs_guest_reg_id rcx = (success, gp_rcx)
get_ikgt_vmcs_guest_reg_id rdx = (success, gp_rdx)
get_ikgt_vmcs_guest_reg_id rdi = (success, gp_rdi)
get_ikgt_vmcs_guest_reg_id rsi = (success, gp_rsi)
get_ikgt_vmcs_guest_reg_id rbp = (success, gp_rbp)
get_ikgt_vmcs_guest_reg_id rsp = (success, gp_rsp)
get_ikgt_vmcs_guest_reg_id r8 = (success, gp_r8)
get_ikgt_vmcs_guest_reg_id r9 = (success, gp_r9)
get_ikgt_vmcs_guest_reg_id r10 = (success, gp_r10)
get_ikgt_vmcs_guest_reg_id r11 = (success, gp_r11)
get_ikgt_vmcs_guest_reg_id r12 = (success, gp_r12)
get_ikgt_vmcs_guest_reg_id r13 = (success, gp_r13)
get_ikgt_vmcs_guest_reg_id r14 = (success, gp_r14)
get_ikgt_vmcs_guest_reg_id r15 = (success, gp_r15)
get_ikgt_vmcs_guest_reg_id cr0 = (success, guest_cr0)
get_ikgt_vmcs_guest_reg_id cr3 = (success, guest_cr3)
get_ikgt_vmcs_guest_reg_id cr4 = (success, guest_cr4)
get_ikgt_vmcs_guest_reg_id _ = (error, num_of_regs)

-- `start_addr & ~((uint64_t)PAGE_4KB - 1)`: the low twelve bits cleared
unfoldable pub page_start : ℕ → ℕ
page_start a = a - a % page_4kb

-- `PAGE_ALIGN_4K(size) >> PAGE_SHIFT` on a uint32_t, whose sum wraps
unfoldable pub page_count : ℕ → ℕ
page_count size = u32 (size + page_4kb - 1) / page_4kb

abbrev addr_item : ℕ → ℕ → ℕ → AddrItem
addr_item permission gva gpa = record { perms = permission; gva = gva; gpa = gpa }

-- The loop over the pages: the status, and the items filled in when it was success.
unfoldable pub translate_pages : Env → ℕ → ℕ → ℕ → Io (Status × List AddrItem)
translate_pages env zero start_addr permission = pure (success, [])
translate_pages env (suc n) start_addr permission = do
  answer ← call (λ t. env.translate_gva t start_addr) (gva_to_gpa start_addr)
  let item = addr_item permission start_addr answer.1
  let rest = translate_pages env n (u64 (start_addr + page_4kb)) permission
  if is_success answer.0
      then (do items ← rest; pure (items.0, item ∷ items.1))
      else pure (answer.0, [])

-- The labels between the two allocations and `out`: `ikgt_update_page_permission` is called only if
-- every page was translated. With no page the list is empty and the call is made.
unfoldable pub update_pages : Env → ℕ → ℕ → ℕ → Io Status
unfolding translate_pages
update_pages env pages start_addr permission = do
  items ← translate_pages env pages start_addr permission
  if is_success items.0
      then call (λ t. env.set_permissions t items.1) (update_page_permission items.1)
      else pure items.0

unfoldable pub util_monitor_memory : Env → ℕ → ℕ → ℕ → Io Status
unfolding page_start page_count update_pages
util_monitor_memory env start_addr size permission =
    if ltb env.addrinfo_max_count (page_count size)
    then pure error
    else with_block env allocate_failed (
        with_block env allocate_failed
          (update_pages env (page_count size) (page_start start_addr) permission))

abbrev pub ikgt_memory_max_block_size : Env → ℕ
ikgt_memory_max_block_size env = env.addrinfo_max_count * page_4kb

-- The `while (size)` loop on fuel; `status` is the variable's value before the round.
unfoldable pub monitor_blocks : Env → ℕ → ℕ → ℕ → ℕ → Status → Io Status
unfolding util_monitor_memory
monitor_blocks env zero start_addr size permission status = pure status
monitor_blocks env (suc fuel) start_addr size permission status =
    let blksize : ℕ = min size (ikgt_memory_max_block_size env) in
    let rest =
      monitor_blocks env fuel (u64 (start_addr + blksize)) (size - blksize) permission success in
    if size == 0 then pure status else (do
      status' ← util_monitor_memory env start_addr blksize permission
      if is_success status' then rest else pure status')

-- A round takes at least one byte if IKGT_ADDRINFO_MAX_COUNT is not 0, so `size` rounds are enough.
unfoldable pub util_monitor_memory_ex : Env → ℕ → ℕ → ℕ → Io Status
unfolding monitor_blocks
util_monitor_memory_ex env start_addr size permission =
    monitor_blocks env size start_addr size permission error

-- The block that `mon_memset` clears and the assignments fill: one of the two masks is set, by `reg`.
abbrev pub cpu_event_params : ℕ → ℕ → ℕ → CpuReg → Bool → CpuEventParams
cpu_event_params cpu_bitmap_0 cpu_bitmap_1 mask reg enable = record {
  cpu_bitmap_0 = cpu_bitmap_0;
  cpu_bitmap_1 = cpu_bitmap_1;
  cpu_reg = reg;
  enable = enable;
  cr0_mask = elim reg [ cr0 ↦ mask | _ ↦ 0 ];
  cr4_mask = elim reg [ cr4 ↦ mask | _ ↦ 0 ];
}

unfoldable pub util_monitor_cpu_events : Env → ℕ → ℕ → ℕ → CpuReg → Bool → Io Status
util_monitor_cpu_events env cpu_bitmap_0 cpu_bitmap_1 mask reg enable =
    let cpu_params = cpu_event_params cpu_bitmap_0 cpu_bitmap_1 mask reg enable in
    with_block env allocate_failed
      (call (λ t. env.monitor_cpu t cpu_params) (monitor_cpu_events cpu_params))

unfoldable pub util_monitor_msr : Env → ℕ → Bool → Io Status
util_monitor_msr env msr_id enable =
    with_block env allocate_failed
      (call (λ t. env.monitor_msr t msr_id enable) (monitor_msr_writes msr_id enable))
