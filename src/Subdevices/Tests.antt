-- ===== src/Subdevices/Tests.antt =====
-- Runs of the cache.
use inferno_windows.Prelude.{true, none, some, List, [], ◌∷◌, arith}
use inferno_windows.Subdevices.{Cache}
use inferno_windows.Subdevices.References.{Op, cache, remove, run, IsBalanced, run-IsBalanced}

abbrev nothing : Cache
nothing = record { entries = []; counts = λ y. 1 }

abbrev ops : List Op
ops =
    cache true (some 7) none (87 ∷ 1 ∷ []) 5 7
    ∷ cache true none (some 8) (84 ∷ 2 ∷ []) 6 8
    ∷ remove (87 ∷ 1 ∷ [])
    ∷ remove (9 ∷ [])
    ∷ []

run-IsBalanced_example : IsBalanced (λ y. 1) (run ops nothing)
run-IsBalanced_example = run-IsBalanced ops (λ y. 1) nothing (λ y. omega arith)
