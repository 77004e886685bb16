-- ===== src/Driver/Session/Names.antt =====
-- driver/cr0.c, driver/cr4.c and driver/msr.c: how often a name stands in a group's directory.
use ikgt_usage.Base.{
  ℕ, ◌+◌, ◌≤◌, ◌≡◌, refl, ap, true, List, [], ◌∷◌, map, none, some, arith, length, if◌then◌else◌,
  Bool-cases, inl, inr,
}
use ikgt_usage.Driver.Config.{Cfg}
use ikgt_usage.Driver.Session.{same_name, find_node, remove_node}

pub same_name-eq : (a b : List ℕ) → same_name a b ≡ true → a ≡ b
unfolding same_name
same_name-eq [] [] h = refl
same_name-eq (x ∷ a) (y ∷ b) h = ground (arith, h, same_name-eq a b)
same_name-eq [] (y ∷ b) h = cc
same_name-eq (x ∷ a) [] h = cc

-- How often a name stands in a list.
unfoldable pub count : List ℕ → List (List ℕ) → ℕ
unfolding same_name
count name [] = 0
count name (n ∷ names) = (if same_name n name then 1 else 0) + count name names

abbrev pub AreDistinct : List (List ℕ) → Type 0
AreDistinct names = (name : List ℕ) → count name names ≤ 1

-- A new name leaves them distinct.
pub AreDistinct-cons :
    (name : List ℕ) (names : List (List ℕ))
    → count name names ≡ 0
    → AreDistinct names
    → AreDistinct (name ∷ names)
unfolding count
AreDistinct-cons name names h d other = elim (Bool-cases (same_name name other)) [
  | inl e ↦
      let same : name ≡ other = same_name-eq name other e in
      ground (arith, e, h, ap (λ n. count n names) same)
  | inr e ↦ ground (arith, e, d other)
]

-- The names of the nodes.
abbrev pub names_of : List Cfg → List (List ℕ)
names_of = map (λ c. c.name)

pub find_node-none :
    (name : List ℕ) (nodes : List Cfg)
    → find_node name nodes ≡ none
    → count name (names_of nodes) ≡ 0
unfolding find_node count
find_node-none name [] h = refl
find_node-none name (n ∷ nodes) h = ground (arith, h, find_node-none name nodes)

pub find_node-some :
    (name : List ℕ) (nodes : List Cfg) (cfg : Cfg)
    → find_node name nodes ≡ some cfg
    → 1 ≤ count name (names_of nodes)
unfolding find_node count
find_node-some name [] cfg h = cc
find_node-some name (n ∷ nodes) cfg h = ground (arith, h, find_node-some name nodes cfg)

pub length-remove_node :
    (name : List ℕ) (nodes : List Cfg)
    → length (remove_node name nodes) + count name (names_of nodes) ≡ length nodes
unfolding remove_node count
length-remove_node name [] = refl
length-remove_node name (n ∷ nodes) = ground (arith, length-remove_node name nodes)

pub count-remove_node :
    (m name : List ℕ) (nodes : List Cfg)
    → count m (names_of (remove_node name nodes)) ≤ count m (names_of nodes)
unfolding remove_node count
count-remove_node m name [] = omega arith
count-remove_node m name (n ∷ nodes) = ground (arith, count-remove_node m name nodes)

pub none-AreDistinct : AreDistinct []
unfolding count
none-AreDistinct name = omega arith
