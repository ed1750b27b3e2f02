-- ===== src/Usb/Destroy.antt =====
-- inferno_driver/UsbHsDevice.cpp, the destructor of UsbHsDevice.
use inferno_windows.Prelude.{ℕ, Option, none, some, List, [], ◌∷◌}
use inferno_windows.Power.Relations.{remove_device_as_power_dependency}
use inferno_windows.Remote.{Io, free, free_of, free_list}
use inferno_windows.Remote.Pairs.{delete_custom_endpoint_minipair}
use inferno_windows.Usb.{Descriptor}
use inferno_windows.Usb.Start.{Request, Usb}

abbrev pub descriptor_block : Option Descriptor → Option ℕ
descriptor_block none = none
descriptor_block (some d) = some d.block

-- The target goes with the dependency on the device below it, `pdo`.
abbrev pub free_target : ℕ → Option ℕ → Io → Io
free_target pdo none io = io
free_target pdo (some t) io =
    free t (record io { power = (remove_device_as_power_dependency pdo io.power).1 })

-- The memory objects of a request go with it, where it was made.
abbrev pub free_parts : Option ℕ → Option ℕ → Option ℕ → Io → Io
free_parts none i o io = io
free_parts (some q) i o io = free q (free_of o (free_of i io))

unfoldable pub free_requests : List Request → Io → Io
free_requests [] io = io
free_requests (q ∷ qs) io = free_requests qs (free_parts q.request q.mem_in q.mem_out io)

unfoldable pub destroy : ℕ → Usb → Io → Io
destroy pdo u io =
    let s = u.speaker in
    let m = u.mic in
    let i1 = free_of u.objects.link (free_target pdo u.objects.target io) in
    let i2 =
      delete_custom_endpoint_minipair m.miniports
        (delete_custom_endpoint_minipair s.miniports i1) in
    let i3 =
      free_list
        (u.descriptor
          ∷ descriptor_block s.descriptor
          ∷ descriptor_block m.descriptor
          ∷ s.formats
          ∷ m.formats
          ∷ [])
        i2 in
    let i4 = free_list m.resources (free_list s.resources i3) in
    let i5 =
      free_list (s.volume_values ∷ m.volume_values ∷ s.mute_values ∷ m.mute_values ∷ []) i4 in
    let i6 = free_requests u.objects.requests i5 in
    free_list
      (u.objects.work_item ∷ u.objects.collection ∷ s.topology ∷ s.wave ∷ m.topology ∷ m.wave ∷ [])
      i6
