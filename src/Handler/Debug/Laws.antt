-- ===== src/Handler/Debug/Laws.antt =====
-- handler/policy.c: the slots that `policy_dump` shows.
use ikgt_usage.Base.{
  ℕ, ◌+◌, ◌≤◌, ◌≡◌, refl, ap, Bool, true, false, List, [], ◌∷◌, ◌++◌, Option, none, some, arith,
  ◌==◌, if◌then◌else◌, length, all_less, of_all_less,
}
use Prim.Native.String.{String}
use native.Mathlib.Decide.{dec_lt}
use ikgt_usage.PolicyCommon.Resource.{resource_id_unknown, resource_id_end}
use ikgt_usage.Handler.Entry.{PolicyEntry, PolicyTable}
use ikgt_usage.Handler.Table.Lookup.{IsValid}
use ikgt_usage.Handler.Print.{Print}
use ikgt_usage.Handler.Names.{res_id_to_string}
use ikgt_usage.Handler.Debug.{slot_lines, dump_slots, policy_dump, dump_header, words}

-- The lines of all used slots from slot `i` on.
unfoldable pub used_lines : ℕ → List PolicyEntry → List Print
unfolding slot_lines
used_lines i [] = []
used_lines i (e ∷ es) =
    let next = used_lines (i + 1) es in
    if e.resource_id == resource_id_unknown then next else slot_lines i e ++ next

dump_slots_lem :
    (i count : ℕ) (es : List PolicyEntry)
    → count + length es ≤ 100
    → dump_slots i count es ≡ used_lines i es
unfolding dump_slots used_lines
dump_slots_lem i count [] h = refl
dump_slots_lem i count (e ∷ es) h =
    ground (arith, dump_slots_lem (i + 1) count es, dump_slots_lem (i + 1) (count + 1) es)

-- For a well-formed table, `policy_dump` prints its header and then every used slot in order and no
-- free one, and never stops at a hundred.
pub policy_dump-eq :
    (t : PolicyTable) (immutable : Bool)
    → IsValid t
    → policy_dump t immutable
      ≡ dump_header t immutable ++ (used_lines 0 t.policy_entry ++ (words "\n" ∷ []))
unfolding policy_dump
policy_dump-eq t immutable v =
    ap (λ s. dump_header t immutable ++ (s ++ (words "\n" ∷ [])))
      (dump_slots_lem 0 0 t.policy_entry (omega (arith, v.size)))

abbrev is_not_null : Option String → Bool
is_not_null none = false
is_not_null (some s) = true

-- `res_id_to_string` never gives a null pointer, whatever number it is asked for: every element of its
-- array that it reaches has a name.
pub res_id_to_string_total : (id : ℕ) → is_not_null (res_id_to_string id) ≡ true
unfolding res_id_to_string
res_id_to_string_total id = elim (dec_lt id resource_id_end) [
  | yes lt ↦
      of_all_less (λ i. is_not_null (res_id_to_string i)) resource_id_end (unfold all_less in refl)
        id lt
  | no nlt ↦ ground arith
]
