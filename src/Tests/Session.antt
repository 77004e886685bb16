-- ===== src/Tests/Session.antt =====
-- A session with the nodes of CR0.
use ikgt_usage.Base.{not, ◌==◌, ℕ, ◌≡◌, ◌≢◌, List, [], ◌∷◌, false, some, refl, ap, arith}
use ikgt_usage.Base.Text.{codes, eq_ignoring_case}
use ikgt_usage.Driver.Config.{
  Cfg, valid_attr, make_item, store_enable, cr0_node, eperm, policy_message,
}
use ikgt_usage.Driver.Nodes.{cr0_file, enable_attr, write_attr}
use ikgt_usage.Driver.Kernel.{kfree, kzalloc, hypercall}
use ikgt_usage.Driver.Nodes.Enable.{RowOf}
use ikgt_usage.Driver.Session.{
  Op, mkdir, rmdir, write, same_name, find_node, make_item_of, remove_node, make_absent,
  remove_present, apply_op, run_ops,
}
use ikgt_usage.Driver.Session.Alias.{store_enable-alias}
use ikgt_usage.Driver.Session.Locked.{run_ops-locked}
use ikgt_usage.Tests.Driver.{kernel, locked_node, wp_row}
use ikgt_usage.Tests.Outcomes.{open_node}

abbrev session : List Op
session =
    mkdir (codes "NE")
    ∷ write (codes "wp") enable_attr (codes "0")
    ∷ write (codes "NE") write_attr (codes "1")
    ∷ rmdir (codes "NE")
    ∷ []

wp_found : find_node (codes "wp") (locked_node ∷ []) ≡ some locked_node
unfolding find_node same_name
wp_found = refl

abbrev first_byte : List ℕ → ℕ
first_byte [] = 0
first_byte (c ∷ _) = c

names_differ : codes "NE" ≢ codes "wp"
names_differ e = omega (arith, ap first_byte e)

run_ops-locked_example :
    find_node (codes "wp") (run_ops kernel cr0_file session (locked_node ∷ []) []).0
    ≡ some locked_node
run_ops-locked_example =
    run_ops-locked kernel cr0_file (codes "wp") locked_node session (locked_node ∷ []) [] refl
      (tt, (tt, (tt, (names_differ, tt)))) wp_found

-- A locked node that is removed and made again is not locked.
made_again :
    (run_ops kernel cr0_file (rmdir (codes "wp") ∷ mkdir (codes "wp") ∷ []) (locked_node ∷ []) []).0
    ≡ record { name = codes "wp"; enable = false; locked = false; write = 0; sticky_value = 0 } ∷ []
unfolding run_ops apply_op find_node same_name remove_present remove_node make_absent make_item_of
    make_item valid_attr eq_ignoring_case
made_again = refl

-- The node "WP" beside the locked node "wp".
abbrev other_node : Cfg
other_node = record open_node { name = codes "WP" }

wp_row_of : RowOf cr0_node.rows (codes "wp")
unfolding valid_attr eq_ignoring_case
wp_row_of = record { index = 6; row = wp_row; found = refl; there = refl; named = refl }

store_enable-alias_example :
    (store_enable kernel cr0_node locked_node (codes "1") [] ≡ ((eperm, locked_node), []))
    × ((store_enable kernel cr0_node other_node (codes "1") []).1
        ≡ kfree
          ∷ hypercall (policy_message cr0_node wp_row other_node (not (1 == 0)))
          ∷ kzalloc 0x1000
          ∷ [])
unfolding wp_row_of
store_enable-alias_example =
    store_enable-alias kernel cr0_node locked_node other_node (codes "1") [] 1 wp_row_of
      (unfold eq_ignoring_case in refl) refl refl refl (omega arith)
