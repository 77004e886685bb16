-- ===== src/Handler/Table/Room.antt =====
-- Free slots of the policy table, by counting distinct identifiers.
use ikgt_usage.Base.{
  ℕ, zero, suc, ◌≤◌, ◌<◌, ◌≡◌, ◌≢◌, ◌⊎◌, inr, refl, List, [], ◌∷◌, none, arith, ◌==◌, if◌then◌else◌,
  length, All,
}
use ikgt_usage.PolicyCommon.Resource.{resource_id_unknown, resource_id_start, resource_id_end}
use ikgt_usage.Handler.Entry.{PolicyEntry, PolicyTable}
use ikgt_usage.Handler.Table.Lookup.{lookup, IsUnique, IsValid}

-- An identifier of a resource, from RESOURCE_ID_START up to RESOURCE_ID_END.
abbrev pub IsResource : ℕ → Type 0
IsResource id = (resource_id_start ≤ id) × (id < resource_id_end)

-- Every slot is free or belongs to a resource.
abbrev pub InRange : List PolicyEntry → Type 0
InRange = All (λ e. (e.resource_id ≡ resource_id_unknown) ⊎ IsResource e.resource_id)

remove : ℕ → List PolicyEntry → List PolicyEntry
remove id [] = []
remove id (e ∷ es) = let rest = remove id es in if e.resource_id == id then rest else e ∷ rest

lookup-remove :
    (i j : ℕ) (es : List PolicyEntry)
    → lookup i (remove j es) ≡ (if i == j then none else lookup i es)
unfolding lookup remove
lookup-remove i j [] = ground arith
lookup-remove i j (e ∷ es) = ground (arith, lookup-remove i j es)

length-remove_absent :
    (j : ℕ) (es : List PolicyEntry) → lookup j es ≡ none → length (remove j es) ≡ length es
unfolding lookup remove
length-remove_absent j [] h = refl
length-remove_absent j (e ∷ es) h = ground (arith, length-remove_absent j es)

length-remove :
    (j : ℕ) (es : List PolicyEntry)
    → j ≢ resource_id_unknown
    → IsUnique es
    → length es ≤ suc (length (remove j es))
unfolding remove
length-remove j [] h u = omega arith
length-remove j (e ∷ es) h u = ground (arith, length-remove j es h u.1, length-remove_absent j es)

remove-IsUnique : (j : ℕ) (es : List PolicyEntry) → IsUnique es → IsUnique (remove j es)
unfolding remove
remove-IsUnique j [] u = tt
remove-IsUnique j (e ∷ es) u =
    ground (arith, remove-IsUnique j es u.1, lookup-remove e.resource_id j es)

abbrev Below : ℕ → List PolicyEntry → Type 0
Below m = All (λ e. (1 ≤ e.resource_id) × (e.resource_id ≤ m))

remove-Below : (m : ℕ) (es : List PolicyEntry) → Below (suc m) es → Below m (remove (suc m) es)
unfolding remove
remove-Below m [] b = tt
remove-Below m (e ∷ es) b = ground (arith, remove-Below m es b.1)

-- Distinct identifiers between 1 and `m` are at most `m`.
length-le_of_Below :
    (m : ℕ) (es : List PolicyEntry)
    → m < resource_id_unknown
    → IsUnique es
    → Below m es
    → length es ≤ m
length-le_of_Below zero [] h u b = omega arith
length-le_of_Below zero (e ∷ es) h u b = absurd (omega arith)
length-le_of_Below (suc m) es h u b = omega (
  arith,
  length-remove (suc m) es (omega arith) u,
  length-le_of_Below m (remove (suc m) es) (omega arith) (remove-IsUnique (suc m) es u)
      (remove-Below m es b),
)

InRange-Below :
    (es : List PolicyEntry) → lookup resource_id_unknown es ≡ none → InRange es → Below 35 es
unfolding lookup
InRange-Below [] h r = tt
InRange-Below (e ∷ es) h r = ground (arith, InRange-Below es)

named_entry : ℕ → PolicyEntry
named_entry id = record {
  resource_id = id;
  flags = 0;
  access_count = 0;
  r_action = 0;
  w_action = 0;
  x_action = 0;
  sticky_val = 0;
  resource_info = record { mask = 0; cpu_mask_1 = 0; cpu_mask_2 = 0 };
}

-- A valid table whose slots all belong to resources has, for every resource, a slot with its
-- identifier or a free one: it is never full.
pub room_for_resource :
    (t : PolicyTable) (id : ℕ)
    → IsValid t
    → InRange t.policy_entry
    → IsResource id
    → lookup id t.policy_entry ≡ none
    → lookup resource_id_unknown t.policy_entry ≢ none
unfolding named_entry
room_for_resource t id v r named absent full = omega (
  arith,
  v.size,
  length-le_of_Below 35 (named_entry id ∷ t.policy_entry) (omega arith) (inr absent, v.unique)
      ((omega arith, omega arith), InRange-Below t.policy_entry full r),
)
