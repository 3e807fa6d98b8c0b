-- ===== src/Kernel/Tree/Tests.antt =====
-- Walks over small trees of processes.
use camellia.Base.{ℕ, zero, suc, ◌<◌, ◌≡◌, refl, [], ◌∷◌, none, some, done, panic, All, arith}
use camellia.Kernel.State.{Proc, blank_proc, Kernel}
use camellia.Kernel.Samples.{empty}
use camellia.Kernel.Tree.{
  proc_next, next_from, climb, climb_to, sibling, sibling_in, after, ns_create, create_loop,
  create_next, create_child, create_climb, adopt, ns_contains, parent_in_ns,
}
use camellia.Kernel.Tree.Below.{child, deeper, Ahead, proc_next-Below}

-- 0 has the children 2 and 1, and 2 has the child 3
abbrev family : ℕ → Proc
family zero = record blank_proc { children = 2 ∷ 1 ∷ []; nextlid = 5 }
family (suc zero) = record blank_proc { parent = some 0; localid = 2 }
family (suc (suc zero)) = record blank_proc { parent = some 0; children = 3 ∷ []; localid = 3 }
family (suc (suc (suc zero))) = record blank_proc { parent = some 2; localid = 4 }
family (suc (suc (suc (suc n)))) = blank_proc

abbrev tree : Kernel
tree = record empty { procs = family; first = some 0 }

walks :
    (proc_next tree none (some 0) ≡ done (some 2))
    × (proc_next tree none (some 2) ≡ done (some 3))
    × (proc_next tree none (some 3) ≡ done (some 1))
    × (proc_next tree none (some 1) ≡ done none)
unfolding proc_next next_from climb climb_to sibling sibling_in after
walks = (refl, refl, refl, refl)

-- A process with a child and an older sibling makes a namespace: the walk leaves its tree for the
-- sibling, and from there climbs past the root.
ns_create_escapes : ns_create 2 tree ≡ panic
unfolding ns_create create_loop create_next create_child create_climb adopt ns_contains parent_in_ns
    sibling sibling_in after
ns_create_escapes = refl

tree_up : (p q : ℕ) → (tree.procs p).parent ≡ some q → q < p
tree_up zero q e = absurd (ground (arith, e))
tree_up (suc zero) q e = ground (arith, e)
tree_up (suc (suc zero)) q e = ground (arith, e)
tree_up (suc (suc (suc zero))) q e = ground (arith, e)
tree_up (suc (suc (suc (suc n)))) q e = absurd (ground (arith, e))

tree_down : (q : ℕ) → All (λ c. (tree.procs c).parent ≡ some q) ((tree.procs q).children)
tree_down zero = (refl, (refl, tt))
tree_down (suc zero) = tt
tree_down (suc (suc zero)) = (refl, tt)
tree_down (suc (suc (suc zero))) = tt
tree_down (suc (suc (suc (suc n)))) = tt

proc_next-Below_example : Ahead tree 0 (proc_next tree (some 0) (some 3))
proc_next-Below_example =
    proc_next-Below tree 0 (record { up = tree_up; down = tree_down }) 3
      (deeper {q = 2} refl (child refl))
