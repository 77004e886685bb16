-- ===== src/Handler/Crx/Rows.antt =====
-- The rows of the tables of handler/cpu_cr0.c and handler/cpu_cr4.c as positions of bits.
use ikgt_usage.Base.{
  ℕ, ◌-◌, ◌^◌, ◌<◌, ◌≡◌, refl, Bool, true, not, ◌&&◌, ◌||◌, List, [], ◌∷◌, none, some, arith, ◌==◌,
  leb, all_less, of_all_less, get_elem?,
}
use ikgt_usage.PolicyCommon.Resource.{
  resource_id_cr0_pe, resource_id_cr0_pg, resource_id_cr4_vme, resource_id_cr4_smap,
}
use ikgt_usage.Handler.Entry.{is_cr0_entry, is_cr4_entry}
use ikgt_usage.Handler.MaskTables.{cr0_res_id_mask_table, cr4_res_id_mask_table}
use ikgt_usage.Handler.Crx.{crx_res_id_to_mask, cr0, cr4}
use ikgt_usage.Handler.Crx.Bits.{IsCrx}

-- The positions of the bits in the order of their identifiers, which start at `first`.
abbrev nth : List ℕ → ℕ → ℕ
nth ps i = elim (get_elem? ps i) [ none ↦ 64 | some p ↦ p ]

abbrev cr0_positions : List ℕ
cr0_positions = 0 ∷ 1 ∷ 2 ∷ 3 ∷ 4 ∷ 5 ∷ 16 ∷ 18 ∷ 29 ∷ 30 ∷ 31 ∷ []

abbrev cr4_positions : List ℕ
cr4_positions = 0 ∷ 1 ∷ 2 ∷ 3 ∷ 4 ∷ 5 ∷ 6 ∷ 7 ∷ 8 ∷ 9 ∷ 10 ∷ 13 ∷ 14 ∷ 17 ∷ 18 ∷ 20 ∷ 21 ∷ []

unfoldable pub cr0_position : ℕ → ℕ
cr0_position id = nth cr0_positions (id - resource_id_cr0_pe)

unfoldable pub cr4_position : ℕ → ℕ
cr4_position id = nth cr4_positions (id - resource_id_cr4_vme)

within : ℕ → ℕ → ℕ → Bool
within first last id = leb first id && leb id last

-- The two laws as tests on identifiers.
masks_agree : List (ℕ × ℕ) → (ℕ → ℕ) → ℕ → ℕ → Bool
masks_agree table position first last =
    all_less (λ id. not (within first last id) || (crx_res_id_to_mask table id == 2 ^ position id))
      38

positions_differ : (ℕ → ℕ) → ℕ → ℕ → Bool
positions_differ position first last =
    all_less
      (λ i.
        all_less
          (λ j.
            not (within first last i && within first last j && (position i == position j))
            || (i == j))
          38)
      38

module _ (table : List (ℕ × ℕ)) (position : ℕ → ℕ) (first last : ℕ) (small : last < 37) where
  mask_of :
      masks_agree table position first last ≡ true
      → (id : ℕ) → within first last id ≡ true
      → crx_res_id_to_mask table id ≡ 2 ^ position id
  unfolding masks_agree within
  mask_of h id w = ground (
    arith,
    of_all_less
        (λ id. not (within first last id) || (crx_res_id_to_mask table id == 2 ^ position id)) 38 h
        id,
  )

  same_of :
      positions_differ position first last ≡ true
      → (i j : ℕ) → within first last i ≡ true
      → within first last j ≡ true
      → position i ≡ position j
      → i ≡ j
  unfolding positions_differ within
  same_of h i j wi wj e = ground (
    arith,
    of_all_less
        (λ j.
          not (within first last i && within first last j && (position i == position j))
          || (i == j))
        38 (of_all_less _ 38 h i (ground arith)) j (ground arith),
  )

-- The table of `cpu_cr0.c` gives the entries that IS_CR0_ENTRY accepts one bit each, all different,
-- and none of them is a free slot.
pub cr0-IsCrx : IsCrx cr0
unfolding is_cr0_entry
cr0-IsCrx = record {
  position = cr0_position;
  one_bit = λ e h.
      mask_of cr0_res_id_mask_table cr0_position resource_id_cr0_pe resource_id_cr0_pg (omega arith)
        (unfold masks_agree all_less crx_res_id_to_mask cr0_position within in refl) e.resource_id
        (unfold within in h);
  distinct = λ e e' h h'.
      same_of cr0_res_id_mask_table cr0_position resource_id_cr0_pe resource_id_cr0_pg (omega arith)
        (unfold positions_differ all_less cr0_position within in refl) e.resource_id e'.resource_id
        (unfold within in h) (unfold within in h');
  known = λ e h. ground arith;
}

-- The table of `cpu_cr4.c` gives the entries that IS_CR4_ENTRY accepts one bit each, all different,
-- and none of them is a free slot.
pub cr4-IsCrx : IsCrx cr4
unfolding is_cr4_entry
cr4-IsCrx = record {
  position = cr4_position;
  one_bit = λ e h.
      mask_of cr4_res_id_mask_table cr4_position resource_id_cr4_vme resource_id_cr4_smap
        (omega arith) (unfold masks_agree all_less crx_res_id_to_mask cr4_position within in refl)
        e.resource_id (unfold within in h);
  distinct = λ e e' h h'.
      same_of cr4_res_id_mask_table cr4_position resource_id_cr4_vme resource_id_cr4_smap
        (omega arith) (unfold positions_differ all_less cr4_position within in refl) e.resource_id
        e'.resource_id (unfold within in h) (unfold within in h');
  known = λ e h. ground arith;
}
