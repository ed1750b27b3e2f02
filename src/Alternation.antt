-- ===== src/Alternation.antt =====
-- Two calls made in turn, as lists of Booleans: what inferno_driver/common.cpp tells a port about
-- idle power, and what the classes of the sideband devices tell a device about its streams.
use inferno_windows.Prelude.{ℕ, zero, suc, Bool, not, List, [], ◌∷◌, ◌++◌}

-- `a` and then the other one, `j` times.
abbrev pub pairs : Bool → ℕ → List Bool
pairs a zero = []
pairs a (suc j) = pairs a j ++ (a ∷ not a ∷ [])

-- The same, and `a` once more where the number is not 0.
abbrev pub told : Bool → ℕ → ℕ → List Bool
told a j zero = pairs a j
told a j (suc n) = pairs a j ++ (a ∷ [])
