-- ===== src/Handler/Table/Lookup.antt =====
-- The policy table as a finite map from resource identifiers to entries.
use ikgt_usage.Base.{
  ℕ, suc, ◌≡◌, ◌≢◌, ◌⊎◌, refl, List, [], ◌∷◌, Option, none, some, arith, ◌==◌, if◌then◌else◌,
  length,
}
use ikgt_usage.PolicyCommon.Resource.{resource_id_unknown}
use ikgt_usage.Handler.Entry.{PolicyEntry, PolicyTable, policy_max_entries}
use ikgt_usage.Handler.Table.{update_first, clear_entry}

-- The first slot with the identifier.
unfoldable pub lookup : ℕ → List PolicyEntry → Option PolicyEntry
lookup id [] = none
lookup id (e ∷ es) = if e.resource_id == id then some e else lookup id es

-- The number of slots in use.
unfoldable pub used : List PolicyEntry → ℕ
used [] = 0
used (e ∷ es) =
    let rest = used es in if e.resource_id == resource_id_unknown then rest else suc rest

-- No identifier but that of a free slot stands twice.
abbrev pub IsUnique : List PolicyEntry → Type 0
IsUnique [] = Unit
IsUnique (e ∷ es) =
    ((e.resource_id ≡ resource_id_unknown) ⊎ (lookup e.resource_id es ≡ none)) × IsUnique es

pub record IsValid (t : PolicyTable) : Type 0 where
  pub size : length t.policy_entry ≡ policy_max_entries
  pub unique : IsUnique t.policy_entry
  pub counted : t.num_entries ≡ used t.policy_entry

-- `update_first` as a total function: the slots are the same if none has the identifier.
unfoldable pub replace_first : ℕ → (PolicyEntry → PolicyEntry) → List PolicyEntry → List PolicyEntry
replace_first id f [] = []
replace_first id f (e ∷ es) = if e.resource_id == id then f e ∷ es else e ∷ replace_first id f es

pub update_first-eq :
    (id : ℕ) (f : PolicyEntry → PolicyEntry) (es : List PolicyEntry)
    → update_first id f es
      ≡ elim (lookup id es) [ none ↦ none | some _ ↦ some (replace_first id f es) ]
unfolding update_first lookup replace_first
update_first-eq id f [] = refl
update_first-eq id f (e ∷ es) = ground (arith, update_first-eq id f es)

pub length-replace_first :
    (id : ℕ) (f : PolicyEntry → PolicyEntry) (es : List PolicyEntry)
    → length (replace_first id f es) ≡ length es
unfolding replace_first
length-replace_first id f [] = refl
length-replace_first id f (e ∷ es) = ground (arith, length-replace_first id f es)

-- An entry written over the one with its identifier.
module _ (entry : PolicyEntry) (named : entry.resource_id ≢ resource_id_unknown) where
  pub lookup-overwrite :
      (j : ℕ) (es : List PolicyEntry)
      → lookup entry.resource_id es ≢ none
      → lookup j (replace_first entry.resource_id (λ _. entry) es)
        ≡ (if entry.resource_id == j then some entry else lookup j es)
  unfolding lookup replace_first
  lookup-overwrite j [] h = absurd (h refl)
  lookup-overwrite j (e ∷ es) h = ground (arith, lookup-overwrite j es)

  pub used-overwrite :
      (es : List PolicyEntry) → used (replace_first entry.resource_id (λ _. entry) es) ≡ used es
  unfolding used replace_first
  used-overwrite [] = refl
  used-overwrite (e ∷ es) = ground (arith, named, used-overwrite es)

  pub overwrite-IsUnique :
      (es : List PolicyEntry)
      → IsUnique es
      → lookup entry.resource_id es ≢ none
      → IsUnique (replace_first entry.resource_id (λ _. entry) es)
  unfolding lookup replace_first
  overwrite-IsUnique [] u h = tt
  overwrite-IsUnique (e ∷ es) u h =
      ground (arith, overwrite-IsUnique es u.1, lookup-overwrite e.resource_id es)

  -- An entry written into the first free slot, when no slot has its identifier.
  pub lookup-fill :
      (j : ℕ) (es : List PolicyEntry)
      → lookup entry.resource_id es ≡ none
      → lookup resource_id_unknown es ≢ none
      → j ≢ resource_id_unknown
      → lookup j (replace_first resource_id_unknown (λ _. entry) es)
        ≡ (if entry.resource_id == j then some entry else lookup j es)
  unfolding lookup replace_first
  lookup-fill j [] n h ne = absurd (h refl)
  lookup-fill j (e ∷ es) n h ne = ground (arith, lookup-fill j es)

  pub used-fill :
      (es : List PolicyEntry)
      → lookup resource_id_unknown es ≢ none
      → used (replace_first resource_id_unknown (λ _. entry) es) ≡ suc (used es)
  unfolding lookup used replace_first
  used-fill [] h = absurd (h refl)
  used-fill (e ∷ es) h = ground (arith, named, used-fill es)

  pub fill-IsUnique :
      (es : List PolicyEntry)
      → IsUnique es
      → lookup entry.resource_id es ≡ none
      → lookup resource_id_unknown es ≢ none
      → IsUnique (replace_first resource_id_unknown (λ _. entry) es)
  unfolding lookup replace_first
  fill-IsUnique [] u n h = absurd (h refl)
  fill-IsUnique (e ∷ es) u n h = ground (arith, fill-IsUnique es u.1, lookup-fill e.resource_id es)

-- The entry with an identifier marked as free.
module _ (id : ℕ) (named : id ≢ resource_id_unknown) where
  pub lookup-clear :
      (j : ℕ) (es : List PolicyEntry)
      → IsUnique es
      → j ≢ resource_id_unknown
      → lookup j (replace_first id clear_entry es) ≡ (if id == j then none else lookup j es)
  unfolding lookup replace_first
  lookup-clear j [] u ne = ground arith
  lookup-clear j (e ∷ es) u ne = ground (arith, named, lookup-clear j es u.1)

  pub used-clear :
      (es : List PolicyEntry)
      → lookup id es ≢ none
      → suc (used (replace_first id clear_entry es)) ≡ used es
  unfolding lookup used replace_first
  used-clear [] h = absurd (h refl)
  used-clear (e ∷ es) h = ground (arith, named, used-clear es)

  pub clear-IsUnique :
      (es : List PolicyEntry) → IsUnique es → IsUnique (replace_first id clear_entry es)
  unfolding lookup replace_first
  clear-IsUnique [] u = tt
  clear-IsUnique (e ∷ es) u =
      ground (arith, clear-IsUnique es u.1, lookup-clear e.resource_id es u.1)
