-- ===== src/Adapter/Helpers.antt =====
-- inferno_driver/common.cpp, the two helper interfaces that the adapter keeps until its destructor:
-- SetEtwHelper and SetWaveServiceGroup.
use inferno_windows.Prelude.{ℕ, ◌+◌, ◌≡◌, arith, Option, none, List, [], ◌∷◌}
use inferno_windows.Objects.{one_of, add_ref_of, release_of}

-- m_pPortClsEtwHelper and m_pServiceGroupWave, with the reference counts.
pub record Helpers : Type 0 where
  pub etw : Option ℕ
  pub group : Option ℕ
  pub counts : ℕ → ℕ

unfoldable pub set_etw_helper : Option ℕ → Helpers → Helpers
set_etw_helper new s = record s { etw = new; counts = add_ref_of new (release_of s.etw s.counts) }

unfoldable pub set_wave_service_group : Option ℕ → Helpers → Helpers
set_wave_service_group new s = record s {
  group = new;
  counts = add_ref_of new (release_of s.group s.counts);
}

-- What the destructor does with them.
unfoldable pub release_helpers : Helpers → Helpers
release_helpers s = record {
  etw = none;
  group = none;
  counts = release_of s.group (release_of s.etw s.counts);
}

-- Each object has the references of others and those of the two members.
abbrev pub IsBalanced : (ℕ → ℕ) → Helpers → Type 0
IsBalanced others s = (y : ℕ) → s.counts y ≡ others y + one_of s.etw y + one_of s.group y

pub data Call : Type 0 where
  etw : Option ℕ → Call
  group : Option ℕ → Call

unfoldable pub set_helpers : List Call → Helpers → Helpers
set_helpers [] s = s
set_helpers (etw new ∷ cs) s = set_helpers cs (set_etw_helper new s)
set_helpers (group new ∷ cs) s = set_helpers cs (set_wave_service_group new s)

set_helpers-IsBalanced :
    (cs : List Call) (others : ℕ → ℕ) (s : Helpers)
    → IsBalanced others s
    → IsBalanced others (set_helpers cs s)
unfolding set_helpers set_etw_helper set_wave_service_group
set_helpers-IsBalanced [] others s h = h
set_helpers-IsBalanced (etw new ∷ cs) others s h =
    set_helpers-IsBalanced cs others _ (λ y. omega (arith, h y))
set_helpers-IsBalanced (group new ∷ cs) others s h =
    set_helpers-IsBalanced cs others _ (λ y. omega (arith, h y))

-- Whatever interfaces are set one after another, NULL included, the destructor has given back every
-- reference to them.
pub release-set_helpers :
    (cs : List Call) (others : ℕ → ℕ) (s : Helpers)
    → IsBalanced others s
    → (y : ℕ) → (release_helpers (set_helpers cs s)).counts y ≡ others y
unfolding release_helpers
release-set_helpers cs others s h y = omega (arith, set_helpers-IsBalanced cs others s h y)
