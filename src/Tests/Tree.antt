-- ===== src/Tests/Tree.antt =====
-- The driver's directory: a group, a node that is sent to the handler, and a group that is removed again.
use ikgt_usage.Base.{ℕ, List, [], ◌∷◌, All, ap, arith}
use ikgt_usage.Base.Text.{codes, eq_ignoring_case}
use ikgt_usage.Driver.Nodes.{enable_attr}
use ikgt_usage.Driver.Agent.{Children, no_children, children_of}
use ikgt_usage.Driver.Session.{mkdir, write}
use ikgt_usage.Driver.Session.Names.{none-AreDistinct}
use ikgt_usage.Driver.Tree.{TreeOp, make_group, remove_group, inside, run_tree}
use ikgt_usage.Driver.Tree.Groups.{IsSound}
use ikgt_usage.Driver.Tree.Memory.{IsKnown, Grows, run_tree-Grows}
use ikgt_usage.Driver.Tree.Typed.{TreeFits, run_tree-TreeFits}
use ikgt_usage.Driver.Session.Typed.{ReadsWords}
use ikgt_usage.Tests.Driver.{kernel}

abbrev tree_session : List TreeOp
tree_session =
    make_group (codes "cr0")
    ∷ inside (codes "cr0") (mkdir (codes "WP"))
    ∷ inside (codes "cr0") (write (codes "WP") enable_attr (codes "1"))
    ∷ make_group (codes "log")
    ∷ remove_group (codes "log")
    ∷ []

abbrev number : Children → ℕ
number no_children = 0
number _ = 1

known : All IsKnown tree_session
unfolding children_of eq_ignoring_case
known = (λ e. omega (arith, ap number e), (tt, (tt, (λ e. omega (arith, ap number e), (tt, tt)))))

empty-IsSound : IsSound []
empty-IsSound = record { names = none-AreDistinct; groups_sound = tt }

run_tree-Grows_example :
    Grows [] (run_tree kernel tree_session [] []).0 [] (run_tree kernel tree_session [] []).1
run_tree-Grows_example = run_tree-Grows kernel tree_session [] [] known empty-IsSound

words : ReadsWords kernel
words page radix value e = ground (arith, e)

run_tree-TreeFits_example : TreeFits (run_tree kernel tree_session [] [])
run_tree-TreeFits_example = run_tree-TreeFits kernel words tree_session [] [] (tt, tt)
