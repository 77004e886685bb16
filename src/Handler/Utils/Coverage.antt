-- ===== src/Handler/Utils/Coverage.antt =====
-- handler/utils.c: the pages that `util_monitor_memory_ex` asks the hypervisor to change.
use ikgt_usage.Base.{
  ℕ, zero, suc, ◌+◌, ◌-◌, ◌*◌, ◌/◌, ◌^◌, ◌≤◌, ◌<◌, ◌≡◌, refl, sym, true, List, [], ◌∷◌, ◌++◌,
  append_assoc, append-nil, map, min, arith, u64,
}
use native.Mathlib.Decide.{ℕ_discrete}
use ikgt_usage.PolicyCommon.{page_4kb}
use ikgt_usage.Handler.Api.{
  Env, Trace, Status, success, error, AddrItem, Call, update_page_permission, is_success,
  gva_to_gpa, malloc,
}
use ikgt_usage.Handler.Utils.{
  translate_pages, update_pages, page_start, page_count, util_monitor_memory, monitor_blocks,
  util_monitor_memory_ex,
}

-- A page and the permission asked for it.
abbrev page_of : AddrItem → ℕ × ℕ
page_of i = (i.gva, i.perms)

changed_by : Call → List (ℕ × ℕ)
changed_by (update_page_permission items) = map page_of items
changed_by _ = []

-- The pages in the calls of `ikgt_update_page_permission`, the earliest first.
unfoldable pub changed : Trace → List (ℕ × ℕ)
unfolding changed_by
changed [] = []
changed (c ∷ t) = changed t ++ changed_by c

-- `n` pages from `start` on, whose addresses wrap at 2 ^ 64.
unfoldable pub page_range : ℕ → ℕ → ℕ → List (ℕ × ℕ)
page_range zero start permission = []
page_range (suc n) start permission =
    (start, permission) ∷ page_range n (u64 (start + page_4kb)) permission

translate_pages-page_range :
    (env : Env) (n start permission : ℕ) (t : Trace)
    → is_success (translate_pages env n start permission t).0.0 ≡ true
    → map page_of (translate_pages env n start permission t).0.1 ≡ page_range n start permission
unfolding translate_pages page_range
translate_pages-page_range env zero start permission t h = refl
translate_pages-page_range env (suc n) start permission t h = ground (
  arith,
  translate_pages-page_range env n (u64 (start + page_4kb)) permission (gva_to_gpa start ∷ t),
)

translate_pages-changed :
    (env : Env) (n start permission : ℕ) (t : Trace)
    → changed (translate_pages env n start permission t).1 ≡ changed t
unfolding translate_pages changed changed_by
translate_pages-changed env zero start permission t = refl
translate_pages-changed env (suc n) start permission t = ground (
  arith,
  append-nil (changed t),
  translate_pages-changed env n (u64 (start + page_4kb)) permission (gva_to_gpa start ∷ t),
)

update_pages-changed :
    (env : Env) (n start permission : ℕ) (t : Trace)
    → is_success (update_pages env n start permission t).0 ≡ true
    → changed (update_pages env n start permission t).1 ≡ changed t ++ page_range n start permission
unfolding update_pages changed changed_by
update_pages-changed env n start permission t h = ground (
  arith,
  translate_pages-page_range env n start permission t,
  translate_pages-changed env n start permission t,
)

util_monitor_memory-changed :
    (env : Env) (start size permission : ℕ) (t : Trace)
    → is_success (util_monitor_memory env start size permission t).0 ≡ true
    → changed (util_monitor_memory env start size permission t).1
      ≡ changed t ++ page_range (page_count size) (page_start start) permission
unfolding util_monitor_memory changed changed_by
util_monitor_memory-changed env start size permission t h =
    let t1 : Trace = malloc (env.malloc_succeeds t) ∷ t in
    let t2 : Trace = malloc (env.malloc_succeeds t1) ∷ t1 in
    ground (
      arith,
      update_pages-changed env (page_count size) (page_start start) permission t2,
      append-nil (changed t),
      append-nil (changed t2),
      append-nil (changed (update_pages env (page_count size) (page_start start) permission t2).1),
    )

page_range_add :
    (a b start permission : ℕ)
    → start < 2 ^ 64
    → page_range (a + b) start permission
      ≡ page_range a start permission ++ page_range b (u64 (start + a * page_4kb)) permission
unfolding page_range
page_range_add zero b start permission h =
    let none_more : 0 + b ≡ b = omega arith in
    let same : u64 (start + 0 * page_4kb) ≡ start = omega arith in rw none_more (rw same refl)
page_range_add (suc a) b start permission h =
    let next : u64 (start + suc a * page_4kb) ≡ u64 (u64 (start + page_4kb) + a * page_4kb) =
      omega arith in
    let one_more : suc a + b ≡ suc (a + b) = omega arith in
    rw one_more
      (rw next (rw (page_range_add a b (u64 (start + page_4kb)) permission (omega arith)) refl))

-- The pages that the bytes of a range take up, counted from the start of a page.
abbrev pub pages : ℕ → ℕ
pages size = (size + page_4kb - 1) / page_4kb

-- A round and the rounds after it.
round_and_rest :
    (max start size permission : ℕ)
    → size + page_4kb ≤ 2 ^ 32
    → start < 2 ^ 64
    → page_range (page_count (min size (max * page_4kb))) (page_start start) permission
        ++ page_range
            (pages (size - min size (max * page_4kb)))
            (page_start (u64 (start + min size (max * page_4kb))))
            permission
      ≡ page_range (pages size) (page_start start) permission
unfolding page_count page_start page_range
round_and_rest max start size permission h low =
    let blksize : ℕ = min size (max * page_4kb) in
    elim (ℕ_discrete (size - max * page_4kb) 0) [
      | yes e ↦
          let all : page_count blksize ≡ pages size = omega arith in
          let none_left : pages (size - blksize) ≡ 0 = omega arith in
          rw all (rw none_left (append-nil (page_range (pages size) (page_start start) permission)))
      | no ne ↦
          let full : page_count blksize ≡ max = omega arith in
          let left : pages size ≡ max + pages (size - blksize) = omega arith in
          let next : page_start (u64 (start + blksize)) ≡ u64 (page_start start + max * page_4kb) =
            omega arith in
          rw full (
            rw left (
              rw next (
                sym (
                  page_range_add max (pages (size - blksize)) (page_start start) permission
                    (omega arith)))))
    ]

monitor_blocks-changed :
    (env : Env) (fuel start size permission : ℕ) (status : Status) (t : Trace)
    → size ≤ fuel
    → size + page_4kb ≤ 2 ^ 32
    → start < 2 ^ 64
    → 0 < env.addrinfo_max_count
    → is_success (monitor_blocks env fuel start size permission status t).0 ≡ true
    → changed (monitor_blocks env fuel start size permission status t).1
      ≡ changed t ++ page_range (pages size) (page_start start) permission
unfolding monitor_blocks page_range
monitor_blocks-changed env zero start size permission status t le small low pos h =
    let none_left : pages size ≡ 0 = omega arith in rw none_left (sym (append-nil (changed t)))
monitor_blocks-changed env (suc fuel) start size permission status t le small low pos h =
    elim (ℕ_discrete size 0) [
      | yes e ↦
          let none_left : pages size ≡ 0 = omega arith in
          rw none_left (ground (arith, e, append-nil (changed t)))
      | no ne ↦
          let max : ℕ = env.addrinfo_max_count in
          let blksize : ℕ = min size (max * page_4kb) in
          let done : Status × Trace = util_monitor_memory env start blksize permission t in
          let round = util_monitor_memory-changed env start blksize permission t in
          let rest =
            monitor_blocks-changed env fuel (u64 (start + blksize)) (size - blksize) permission
              success done.1 (omega arith) (omega arith) (omega arith) pos in
          ground (
            arith,
            ne,
            round,
            rest,
            append_assoc (changed t) (page_range (page_count blksize) (page_start start) permission)
                (page_range (pages (size - blksize)) (page_start (u64 (start + blksize)))
                  permission),
            round_and_rest max start size permission small low,
          )
    ]

-- If IKGT_ADDRINFO_MAX_COUNT is not 0 and the size rounds up to whole pages in 32 bits, then
-- `util_monitor_memory_ex` succeeds only when it has asked the hypervisor to give the permission to the
-- pages of the range in order, and to no others: as many pages as the size takes up, from the page of the
-- start address on. They do not depend on how the range is cut into blocks.
pub changed-util_monitor_memory_ex :
    (env : Env) (start size permission : ℕ) (t : Trace)
    → size + page_4kb ≤ 2 ^ 32
    → start < 2 ^ 64
    → 0 < env.addrinfo_max_count
    → is_success (util_monitor_memory_ex env start size permission t).0 ≡ true
    → changed (util_monitor_memory_ex env start size permission t).1
      ≡ changed t ++ page_range (pages size) (page_start start) permission
unfolding util_monitor_memory_ex
changed-util_monitor_memory_ex env start size permission t small low pos h =
    monitor_blocks-changed env size start size permission error t (omega arith) small low pos h
