-- ===== src/Driver/Kernel.antt =====
-- What the driver calls in the kernel and in ikgt_api.h, which are not part of this repository. The
-- answers may depend on all calls made so far.
use ikgt_usage.Base.{ℕ, Bool, not, List, ◌∷◌, Option, ◌==◌}
use ikgt_usage.PolicyCommon.{PolicyMessage}

pub data Call : Type 0 where
  kzalloc : ℕ → Call
  kfree : Call
  hypercall : PolicyMessage → Call
  register_subsystem unregister_subsystem : Call
  register_sysctl_table unregister_sysctl_table : Call

abbrev pub Trace : Type 0
Trace = List Call

-- `kzalloc` is the address of the cleared block, 0 for NULL; `kstrtoul page base` is the value parsed, or none for an error; `hypercall_succeeds` says whether
-- the hypercall returns SUCCESS.
pub record Kernel : Type 0 where
  pub kzalloc_address : Trace → ℕ
  pub hypercall_succeeds : Trace → PolicyMessage → Bool
  pub register_succeeds : Trace → Bool
  pub kstrtoul : List ℕ → ℕ → Option ℕ
  pub num_online_cpus : ℕ

abbrev pub Io : Type 0 → Type 0
Io A = Trace → A × Trace

abbrev pub pure : {A : Type 0} → A → Io A
pure a t = (a, t)

infixl 5 ◌>>=◌ ◌>>◌
abbrev pub ◌>>=◌ : {A B : Type 0} → Io A → (A → Io B) → Io B
◌>>=◌ m f t = let (a, t') = m t in f a t'

abbrev pub ◌>>◌ : {A B : Type 0} → Io A → Io B → Io B
m >> k = m >>= λ _. k

module _ (kernel : Kernel) where
  abbrev pub allocate_at : Io ℕ
  allocate_at t = (kernel.kzalloc_address t, kzalloc (kernel.kzalloc_address t) ∷ t)

  -- whether the block is not NULL
  abbrev pub allocate : Io Bool
  allocate t = (not (kernel.kzalloc_address t == 0), kzalloc (kernel.kzalloc_address t) ∷ t)

  abbrev pub ikgt_hypercall : PolicyMessage → Io Bool
  ikgt_hypercall message t = (kernel.hypercall_succeeds t message, hypercall message ∷ t)

abbrev pub release : Io (Unit {0})
release t = (tt, kfree ∷ t)
