-- ===== src/Handler/Table/Laws.antt =====
-- `policy_entry_add` and `policy_entry_del` as operations on the finite map.
use ikgt_usage.Base.{
  ℕ, suc, ◌≤◌, ◌≡◌, ◌≢◌, ◌⊎◌, inl, inr, refl, List, [], ◌∷◌, none, some, arith, ◌==◌, if◌then◌else◌,
  length, Option-cases, ◌∙◌, sym, ap, ◌-◌,
}
use ikgt_usage.PolicyCommon.Resource.{resource_id_unknown}
use ikgt_usage.Handler.Entry.{PolicyEntry, PolicyTable}
use ikgt_usage.Handler.Table.{empty_table, clear_entry, policy_entry_add, policy_entry_del}
use ikgt_usage.Handler.Table.Lookup.{
  lookup, used, IsValid, replace_first, update_first-eq, length-replace_first, lookup-overwrite,
  used-overwrite, overwrite-IsUnique, lookup-fill, used-fill, fill-IsUnique, lookup-clear,
  used-clear, clear-IsUnique,
}
use ikgt_usage.Handler.Table.Room.{IsResource, InRange, room_for_resource}

used-le-length : (es : List PolicyEntry) → used es ≤ length es
unfolding used
used-le-length [] = omega arith
used-le-length (e ∷ es) = ground (arith, used-le-length es)

-- The table that `policy_initialize` fills in is valid, and holds no policy.
pub empty_table-IsValid : IsValid empty_table × InRange (empty_table.policy_entry)
unfolding used lookup
empty_table-IsValid = ground arith

-- `policy_entry_add`, by what the table holds.
add_present :
    (entry : PolicyEntry) (t : PolicyTable)
    → lookup entry.resource_id t.policy_entry ≢ none
    → policy_entry_add entry t
      ≡ record t { policy_entry = replace_first entry.resource_id (λ _. entry) t.policy_entry }
unfolding policy_entry_add
add_present entry t h =
    ground (arith, update_first-eq entry.resource_id (λ _. entry) t.policy_entry)

add_absent :
    (entry : PolicyEntry) (t : PolicyTable)
    → IsValid t
    → lookup entry.resource_id t.policy_entry ≡ none
    → lookup resource_id_unknown t.policy_entry ≢ none
    → policy_entry_add entry t ≡ record t {
      policy_entry = replace_first resource_id_unknown (λ _. entry) t.policy_entry;
      num_entries = suc t.num_entries;
    }
unfolding policy_entry_add
add_absent entry t v h room = ground (
  arith,
  update_first-eq entry.resource_id (λ _. entry) t.policy_entry,
  update_first-eq resource_id_unknown (λ _. entry) t.policy_entry,
  used-le-length t.policy_entry,
)

-- `policy_entry_add` leaves a full table as it is: no slot has the identifier, and none is free.
pub add_full :
    (entry : PolicyEntry) (t : PolicyTable)
    → lookup entry.resource_id t.policy_entry ≡ none
    → lookup resource_id_unknown t.policy_entry ≡ none
    → policy_entry_add entry t ≡ t
unfolding policy_entry_add
add_full entry t h full = ground (
  arith,
  update_first-eq entry.resource_id (λ _. entry) t.policy_entry,
  update_first-eq resource_id_unknown (λ _. entry) t.policy_entry,
)

-- `policy_entry_add` keeps a table valid, whatever identifier it adds (but for the mark of a free
-- slot) and whether or not it finds a slot.
pub add-IsValid :
    (entry : PolicyEntry) (t : PolicyTable)
    → entry.resource_id ≢ resource_id_unknown
    → IsValid t
    → IsValid (policy_entry_add entry t)
add-IsValid entry t named v = elim (Option-cases (lookup entry.resource_id t.policy_entry)) [
  | inr (e, found) ↦ rw (add_present entry t (λ q. cc)) (record {
    size = length-replace_first _ _ _ ∙ v.size;
    unique = overwrite-IsUnique entry named t.policy_entry v.unique (λ q. cc);
    counted = v.counted ∙ sym (used-overwrite entry named t.policy_entry);
  })
  | inl absent ↦ elim (Option-cases (lookup resource_id_unknown t.policy_entry)) [
    | inl full ↦ rw (add_full entry t absent full) v
    | inr (e, free) ↦ rw (add_absent entry t v absent (λ q. cc)) (record {
      size = length-replace_first _ _ _ ∙ v.size;
      unique = fill-IsUnique entry named t.policy_entry v.unique absent (λ q. cc);
      counted = ap suc v.counted ∙ sym (used-fill entry named t.policy_entry (λ q. cc));
    })
  ]
]

-- After `policy_entry_add` of a resource's entry to a valid table of resources, the table holds that
-- entry for its resource and what it held before for every other identifier.
pub lookup-add :
    (entry : PolicyEntry) (t : PolicyTable) (j : ℕ)
    → IsValid t
    → InRange t.policy_entry
    → IsResource entry.resource_id
    → j ≢ resource_id_unknown
    → lookup j (policy_entry_add entry t).policy_entry
      ≡ (if entry.resource_id == j then some entry else lookup j t.policy_entry)
lookup-add entry t j v r named ne = elim (Option-cases (lookup entry.resource_id t.policy_entry)) [
  | inr (e, found) ↦
      rw (add_present entry t (λ q. cc))
        (lookup-overwrite entry (omega arith) j t.policy_entry (λ q. cc))
  | inl absent ↦
      let room = room_for_resource t entry.resource_id v r named absent in
      rw (add_absent entry t v absent room)
        (lookup-fill entry (omega arith) j t.policy_entry absent room ne)
]

del_present :
    (entry : PolicyEntry) (t : PolicyTable)
    → lookup entry.resource_id t.policy_entry ≢ none
    → policy_entry_del entry t ≡ record t {
      policy_entry = replace_first entry.resource_id clear_entry t.policy_entry;
      num_entries = t.num_entries - 1;
    }
unfolding policy_entry_del
del_present entry t h = ground (arith, update_first-eq entry.resource_id clear_entry t.policy_entry)

del_absent :
    (entry : PolicyEntry) (t : PolicyTable)
    → lookup entry.resource_id t.policy_entry ≡ none
    → policy_entry_del entry t ≡ t
unfolding policy_entry_del
del_absent entry t h = ground (arith, update_first-eq entry.resource_id clear_entry t.policy_entry)

-- `policy_entry_del` keeps a table valid, whether or not the identifier is there.
pub del-IsValid :
    (entry : PolicyEntry) (t : PolicyTable)
    → entry.resource_id ≢ resource_id_unknown
    → IsValid t
    → IsValid (policy_entry_del entry t)
del-IsValid entry t named v = elim (Option-cases (lookup entry.resource_id t.policy_entry)) [
  | inl absent ↦ rw (del_absent entry t absent) v
  | inr (e, found) ↦ rw (del_present entry t (λ q. cc)) (record {
    size = length-replace_first _ _ _ ∙ v.size;
    unique = clear-IsUnique entry.resource_id named t.policy_entry v.unique;
    counted = omega (arith, v.counted, used-clear entry.resource_id named t.policy_entry (λ q. cc));
  })
]

-- After `policy_entry_del` on a valid table, the table holds nothing for the entry's identifier, and
-- what it held before for every other one.
pub lookup-del :
    (entry : PolicyEntry) (t : PolicyTable) (j : ℕ)
    → IsValid t
    → entry.resource_id ≢ resource_id_unknown
    → j ≢ resource_id_unknown
    → lookup j (policy_entry_del entry t).policy_entry
      ≡ (if entry.resource_id == j then none else lookup j t.policy_entry)
lookup-del entry t j v named ne = elim (Option-cases (lookup entry.resource_id t.policy_entry)) [
  | inl absent ↦ rw (del_absent entry t absent) (ground arith)
  | inr (e, found) ↦
      rw (del_present entry t (λ q. cc))
        (lookup-clear entry.resource_id named j t.policy_entry v.unique ne)
]

replace_first-InRange :
    (id : ℕ) (f : PolicyEntry → PolicyEntry) (es : List PolicyEntry)
    → ((e : PolicyEntry) → ((f e).resource_id ≡ resource_id_unknown) ⊎ IsResource (f e).resource_id)
    → InRange es
    → InRange (replace_first id f es)
unfolding replace_first
replace_first-InRange id f [] h r = tt
replace_first-InRange id f (e ∷ es) h r = ground (arith, h e, replace_first-InRange id f es h r.1)

-- Adding or deleting the entry of a resource leaves every slot free or with a resource.
pub add-InRange :
    (entry : PolicyEntry) (t : PolicyTable)
    → IsResource entry.resource_id
    → InRange t.policy_entry
    → InRange (policy_entry_add entry t).policy_entry
unfolding policy_entry_add
add-InRange entry t named r = ground (
  arith,
  update_first-eq entry.resource_id (λ _. entry) t.policy_entry,
  update_first-eq resource_id_unknown (λ _. entry) t.policy_entry,
  replace_first-InRange entry.resource_id (λ _. entry) t.policy_entry (λ _. inr named) r,
  replace_first-InRange resource_id_unknown (λ _. entry) t.policy_entry (λ _. inr named) r,
)

pub del-InRange :
    (entry : PolicyEntry) (t : PolicyTable)
    → InRange t.policy_entry
    → InRange (policy_entry_del entry t).policy_entry
unfolding policy_entry_del
del-InRange entry t r = ground (
  arith,
  update_first-eq entry.resource_id clear_entry t.policy_entry,
  replace_first-InRange entry.resource_id clear_entry t.policy_entry (λ _. inl refl) r,
)
