-- ===== src/Remote/Categories.antt =====
-- inferno_driver/UsbHsDevice.cpp, A2dpHpDevice.cpp and BthhfpDevice.cpp: which pins
-- UpdateCustomEndpointCategory changes, and when it succeeds.
use inferno_windows.Prelude.{
  ℕ, ◌+◌, ◌≡◌, refl, arith, Bool, true, false, ◌&&◌, List, [], ◌∷◌, leb, ◌==◌, if◌then◌else◌,
}
use inferno_windows.Status.{NtStatus, success, nt_success}
use inferno_windows.Remote.Pairs.{not_found, update_pins, update_custom_endpoint_category}

-- The pins of the category for audio, and the others.
abbrev pub audio_pins : ℕ → List ℕ → ℕ
audio_pins audio [] = 0
audio_pins audio (p ∷ ps) = if p == audio then audio_pins audio ps + 1 else audio_pins audio ps

abbrev pub other_pins : ℕ → List ℕ → ℕ
other_pins audio [] = 0
other_pins audio (p ∷ ps) = if p == audio then other_pins audio ps else other_pins audio ps + 1

abbrev flag : Bool → ℕ
flag b = if b then 1 else 0

abbrev status_so_far : Bool → NtStatus
status_so_far found_node = if found_node then success else not_found

update_pins-succeeds :
    (audio category : ℕ) (a n : Bool) (ps : List ℕ)
    → nt_success (update_pins audio category a n (status_so_far n) ps).0
      ≡ (leb (flag a + audio_pins audio ps) 1 && (flag n + other_pins audio ps == 1))
unfolding update_pins
update_pins-succeeds audio category true true [] = refl
update_pins-succeeds audio category true false [] = refl
update_pins-succeeds audio category false true [] = refl
update_pins-succeeds audio category false false [] = refl
update_pins-succeeds audio category true true (p ∷ ps) = ground arith
update_pins-succeeds audio category true false (p ∷ ps) =
    ground (arith, update_pins-succeeds audio category true true ps)
update_pins-succeeds audio category false true (p ∷ ps) =
    ground (arith, update_pins-succeeds audio category true true ps)
update_pins-succeeds audio category false false (p ∷ ps) = ground (
  arith,
  update_pins-succeeds audio category true false ps,
  update_pins-succeeds audio category false true ps,
)

abbrev pub recategorised : ℕ → ℕ → List ℕ → List ℕ
recategorised audio category [] = []
recategorised audio category (p ∷ ps) =
    (if p == audio then p else category) ∷ recategorised audio category ps

update_pins-eq :
    (audio category : ℕ) (a n : Bool) (status : NtStatus) (ps : List ℕ)
    → nt_success (update_pins audio category a n status ps).0 ≡ true
    → (update_pins audio category a n status ps).1 ≡ recategorised audio category ps
unfolding update_pins
update_pins-eq audio category a n status [] s = refl
update_pins-eq audio category a n status (p ∷ ps) s = ground (
  arith,
  update_pins-eq audio category true n status ps,
  update_pins-eq audio category a true success ps,
)

-- UpdateCustomEndpointCategory succeeds if and only if one pin at most is of the category for audio
-- and just one is not, and then the device's category is that of the one, and the other is as it was.
pub update_custom_endpoint_category_lem :
    (audio category : ℕ) (ps : List ℕ)
    → (nt_success (update_custom_endpoint_category audio category ps).0
        ≡ (leb (audio_pins audio ps) 1 && (other_pins audio ps == 1)))
      × (nt_success (update_custom_endpoint_category audio category ps).0 ≡ true
          → (update_custom_endpoint_category audio category ps).1 ≡ recategorised audio category ps)
unfolding update_custom_endpoint_category
update_custom_endpoint_category_lem audio category ps = (
  ground (arith, update_pins-succeeds audio category false false ps),
  update_pins-eq audio category false false not_found ps,
)
