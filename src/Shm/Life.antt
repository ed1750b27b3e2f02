-- ===== src/Shm/Life.antt =====
-- InfernoShmInit and InfernoShmCleanup: what is shared after them, on every answer of the kernel.
use inferno_windows.Prelude.{
  ℕ, ◌*◌, ◌-◌, ◌/◌, ◌<◌, ◌^◌, ◌≡◌, refl, sym, arith, true, false, none, some, length, List,
  Bool-cases, ◌⊎◌, inl, inr,
}
use inferno_windows.Status.{nt_success}
use inferno_windows.Shm.{View, Shm, Sections, section_size, init, cleanup, write}
use inferno_windows.Shm.Ring.{IsView}

-- A view of so many bytes holds two bytes for each cell behind the header.
abbrev pub IsSized : Sections → Type 0
IsSized k = (size : ℕ) → length (k.view size).ring ≡ (size - 16) / 2

-- When both services succeed, the view has the channels and the rate asked for, an index of 0, and
-- memory for all of its cells; otherwise the failing service's status comes back, nothing new is
-- mapped, and no handle of a section without a view is kept.
pub init_result :
    (k : Sections) (ch rate : ℕ) (s : Shm)
    → IsSized k
    → 4096 * ch < 2 ^ 32
    → s.base ≡ none
    → s.handle ≡ false
    → ((nt_success (init k ch rate s).0 ≡ true)
        × ((v : View) × ((init k ch rate s).1.base ≡ some v)
            × IsView v
            × (v.write_index ≡ 0)
            × (v.channel_count ≡ ch)
            × (v.sample_rate ≡ rate)))
      ⊎ ((nt_success (init k ch rate s).0 ≡ false) × ((init k ch rate s).1 ≡ s))
unfolding init
init_result k ch rate s sized narrow b h = elim (Bool-cases (nt_success (k.create size))) [
  | inl created ↦ elim (Bool-cases (nt_success (k.map_view size))) [
    | inl mapped ↦ rw (created, mapped) (inl (refl, (view, refl, view-IsView, refl, refl, refl)))
    | inr unmapped ↦
        rw (created, unmapped) (inr (unmapped, λ i. record { base = s.base; handle = sym h i }))
  ]
  | inr refused ↦ rw refused (inr (refused, refl))
]
  where
    size : ℕ
    size = section_size ch

    view : View
    view = record (k.view size) {
      write_index = 0;
      channel_count = ch;
      sample_rate = rate;
      frames = 4096;
    }

    view-IsView : IsView view
    view-IsView = omega (arith, sized size)

-- After the clean-up nothing is mapped or held, and a write of the audio engine changes nothing.
pub write-cleanup :
    (samples : List ℕ) (n ch : ℕ) (s : Shm)
    → write samples n ch (cleanup s) ≡ record { base = none; handle = false }
unfolding write cleanup
write-cleanup samples n ch s = refl
