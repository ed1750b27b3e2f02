-- ===== src/Adapter/Tests.antt =====
-- Runs of the adapter.
use inferno_windows.Prelude.{ℕ, ◌+◌, ◌≡◌, refl, true, none, some, List, [], ◌∷◌, arith}
use inferno_windows.Objects.{one}
use inferno_windows.Sideband.{Manager, stop}
use inferno_windows.Adapter.{Adapter, cleanup_adapter}
use inferno_windows.Adapter.Cleanup.{IsDown, cleanup_adapter_ends}
use inferno_windows.Adapter.Helpers.{
  Helpers, Call, etw, group, set_helpers, release_helpers, release-set_helpers,
}

abbrev calls : List Call
calls = etw (some 1) ∷ etw (some 2) ∷ group (some 1) ∷ etw none ∷ []

abbrev none_set : Helpers
none_set = record { etw = none; group = none; counts = λ y. 1 }

release-set_helpers_example : (release_helpers (set_helpers calls none_set)).counts 1 ≡ 1
release-set_helpers_example = release-set_helpers calls (λ y. 1) none_set (λ y. omega arith) 1

-- One device is listed, and another waits for its Stop.
abbrev headsets : Manager
headsets = record {
  enable_cleanup = true;
  work_item = true;
  registered = true;
  devices = record { object = 0; name = 65 ∷ [] } ∷ [];
  tasks = record { action = stop; device = 1 } ∷ [];
  counts = λ y. one 0 y + one 1 y;
  objects = 2;
  calls = [];
}

abbrev adapter : Adapter
adapter = record {
  sidebands = record { bth = headsets; usb = headsets; a2dp = headsets };
  shm = record { base = none; handle = true };
  cache = record {
    entries = record { name = 84 ∷ []; port = 1; miniport = 2; power = some 2; change = none } ∷ [];
    counts = λ y. one 1 y + one 2 y + one 2 y;
  };
}

cleanup_adapter_ends_example :
    IsDown (λ y. 0) (cleanup_adapter adapter).sidebands.bth
    × IsDown (λ y. 0) (cleanup_adapter adapter).sidebands.usb
    × IsDown (λ y. 0) (cleanup_adapter adapter).sidebands.a2dp
    × ((cleanup_adapter adapter).shm.base ≡ none)
    × ((cleanup_adapter adapter).cache.entries ≡ [])
    × ((y : ℕ) → (cleanup_adapter adapter).cache.counts y ≡ 0)
cleanup_adapter_ends_example =
    cleanup_adapter_ends (λ y. 0) adapter (λ y. omega arith, refl, refl)
      (λ y. omega arith, refl, refl) (λ y. omega arith, refl, refl) (λ y. omega arith)
