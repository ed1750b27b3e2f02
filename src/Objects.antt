-- ===== src/Objects.antt =====
-- What the parts of inferno_driver/common.cpp share: the comparison of names, and the reference
-- counts of COM objects. An object is a number; the counts of all objects are a function.
use inferno_windows.Prelude.{
  ℕ, ◌+◌, ◌-◌, Bool, true, false, ◌&&◌, Option, none, some, List, [], ◌∷◌, ◌==◌, if◌then◌else◌,
}

-- wcscmp gives 0; or two UNICODE_STRINGs have one length and the same characters.
abbrev pub same_name : List ℕ → List ℕ → Bool
same_name [] [] = true
same_name [] (y ∷ ys) = false
same_name (x ∷ xs) [] = false
same_name (x ∷ xs) (y ∷ ys) = (x == y) && same_name xs ys

-- The references to `y` that one to `x` is.
abbrev pub one : ℕ → ℕ → ℕ
one x y = if x == y then 1 else 0

abbrev pub one_of : Option ℕ → ℕ → ℕ
one_of none y = 0
one_of (some x) y = one x y

-- AddRef, and SAFE_RELEASE on a pointer that may be NULL.
abbrev pub add_ref : ℕ → (ℕ → ℕ) → ℕ → ℕ
add_ref x counts y = counts y + one x y

abbrev pub add_ref_of : Option ℕ → (ℕ → ℕ) → ℕ → ℕ
add_ref_of o counts y = counts y + one_of o y

abbrev pub release : ℕ → (ℕ → ℕ) → ℕ → ℕ
release x counts y = counts y - one x y

abbrev pub release_of : Option ℕ → (ℕ → ℕ) → ℕ → ℕ
release_of o counts y = counts y - one_of o y
