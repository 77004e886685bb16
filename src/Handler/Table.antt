-- ===== src/Handler/Table.antt =====
-- handler/policy.c: the policy table as a data structure.
pub mod Lookup
pub mod Room
pub mod Laws
use ikgt_usage.Base.{
  ℕ, ◌-◌, List, [], ◌∷◌, Option, none, some, ◌==◌, if◌then◌else◌, replicate, inc64,
}
use ikgt_usage.PolicyCommon.{PolicyUpdateRec}
use ikgt_usage.PolicyCommon.Resource.{resource_id_unknown}
use ikgt_usage.Handler.Entry.{
  PolicyEntry, PolicyTable, policy_table_ver, policy_table_signature, policy_max_entries,
}

-- A slot after `mon_memset` and the mark as free.
abbrev pub free_entry : PolicyEntry
free_entry = record {
  resource_id = resource_id_unknown;
  flags = 0;
  access_count = 0;
  r_action = 0;
  w_action = 0;
  x_action = 0;
  sticky_val = 0;
  resource_info = record { mask = 0; cpu_mask_1 = 0; cpu_mask_2 = 0 };
}

-- What `policy_initialize` writes into the allocated table.
abbrev pub empty_table : PolicyTable
empty_table = record {
  version = policy_table_ver;
  signature = policy_table_signature;
  num_entries = 0;
  policy_entry = replicate policy_max_entries free_entry;
}

-- A loop of `policy_entry_add` or `policy_entry_del`: the slots with the first one whose identifier
-- is `id` replaced, or `none` if no slot has it.
unfoldable pub update_first :
    ℕ → (PolicyEntry → PolicyEntry) → List PolicyEntry → Option (List PolicyEntry)
update_first id f [] = none
update_first id f (e ∷ es) =
    let rest = update_first id f es in
    if e.resource_id == id
    then some (f e ∷ es)
    else elim rest [ none ↦ none | some es' ↦ some (e ∷ es') ]

-- The second loop is reached only if the first one did not return, and a full table is left as it is.
unfoldable pub policy_entry_add : PolicyEntry → PolicyTable → PolicyTable
unfolding update_first
policy_entry_add entry t = elim (update_first entry.resource_id (λ _. entry) t.policy_entry) [
  | some es ↦ record t { policy_entry = es }
  | none ↦ elim (update_first resource_id_unknown (λ _. entry) t.policy_entry) [
    | some es ↦ record t { policy_entry = es; num_entries = inc64 t.num_entries }
    | none ↦ t
  ]
]

-- `POLICY_SET_RESOURCE_ID(…, RESOURCE_ID_UNKNOWN)` and the reset of the count
abbrev pub clear_entry : PolicyEntry → PolicyEntry
clear_entry e = record e { resource_id = resource_id_unknown; access_count = 0 }

-- `num_entries--` runs only at a count that is not 0.
unfoldable pub policy_entry_del : PolicyEntry → PolicyTable → PolicyTable
unfolding update_first
policy_entry_del entry t = elim (update_first entry.resource_id clear_entry t.policy_entry) [
  | some es ↦ record t { policy_entry = es; num_entries = t.num_entries - 1 }
  | none ↦ t
]

-- The message's fields copied over those of `policy_entry`, whose `flags` stay as they were.
unfoldable pub policy_msg_to_entry : PolicyUpdateRec → PolicyEntry → PolicyEntry
policy_msg_to_entry msg policy_entry = record policy_entry {
  resource_id = msg.resource_id;
  sticky_val = msg.sticky_val;
  r_action = msg.r_action;
  w_action = msg.w_action;
  x_action = msg.x_action;
  resource_info = msg.resource_info;
  access_count = 0;
}
