-- ===== src/Handler/Utils/Pages.antt =====
-- The pages whose permission `util_monitor_memory` changes.
use ikgt_usage.Base.{ℕ, zero, suc, ◌+◌, ◌≡◌, refl, true, List, [], ◌∷◌, map, arith, u64, All}
use ikgt_usage.PolicyCommon.{page_4kb}
use ikgt_usage.Handler.Api.{Env, Trace, AddrItem, is_success, gva_to_gpa}
use ikgt_usage.Handler.Utils.{translate_pages}

-- The addresses of `n` pages from `start` on, which wrap at 2 ^ 64.
pub page_addresses : ℕ → ℕ → List ℕ
page_addresses zero start = []
page_addresses (suc n) start = start ∷ page_addresses n (u64 (start + page_4kb))

-- When `translate_pages` succeeds, the list has one item for each of the pages, in order, each with the
-- permission asked for.
pub translate_pages_lem :
    (env : Env) (n start permission : ℕ) (t : Trace)
    → is_success (translate_pages env n start permission t).0.0 ≡ true
    → (map (λ (i : AddrItem). i.gva) (translate_pages env n start permission t).0.1
        ≡ page_addresses n start)
      × All (λ (i : AddrItem). i.perms ≡ permission) (translate_pages env n start permission t).0.1
unfolding translate_pages page_addresses
translate_pages_lem env zero start permission t h = (refl, tt)
translate_pages_lem env (suc n) start permission t h =
    ground
      (arith, translate_pages_lem env n (u64 (start + page_4kb)) permission (gva_to_gpa start ∷ t))
