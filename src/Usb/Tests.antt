-- ===== src/Usb/Tests.antt =====
-- Runs of the life of a USB headset.
use inferno_windows.Prelude.{
  ℕ, ◌+◌, ◌≤◌, ◌≡◌, refl, true, false, some, List, [], ◌∷◌, ◌&&◌, ◌==◌, if◌then◌else◌, arith,
}
use inferno_windows.Subdevices.References.{IsBalanced, held}
use inferno_windows.Usb.{flow_out}
use inferno_windows.Usb.Controls.{
  Params, Below, Members, speaker, mic, get_device_volume, get_device_mute, set_device_volume,
  set_device_mute, request_level, send_level,
}
use inferno_windows.Usb.Calls.{
  IsStore, Call, call_set_volume, call_set_mute, call_get_volume, set_and_run, with_level,
  sets_volume,
}
use inferno_windows.Usb.Recall.{get_device_volume-set}
use inferno_windows.Usb.Start.{StartAnswers}
use inferno_windows.Usb.Ends.{
  make_request, make_requests, init, init_objects, init_work_item, init_collection, init_target,
  init_link, init_requests,
}
use inferno_windows.Usb.Life.{life, life-IsBalanced}
use inferno_windows.Remote.{Fetch, Code, set_volume, get_volume}
use inferno_windows.Status.{NtStatus, success, failure, nt_success}
use inferno_windows.Remote.Owned.{Owes, all_of}
use inferno_windows.Usb.Resources.{get_transport_resources, get_transport_resources-Owes}
use inferno_windows.Usb.Leaks.{Brings, life_two_speakers-leaks}
use inferno_windows.Usb.Samples.{calm, sizes, brings, initial, endpoint, starting, headset}

life-IsBalanced_example : IsBalanced (λ y. 0) (life sizes initial headset calm).adapter.cache
life-IsBalanced_example =
    life-IsBalanced (λ y. 0) sizes initial headset calm (λ y. omega arith) (omega arith)
      (omega arith) refl

abbrev granted : (b : ℕ) → Brings (brings b) b
granted b = record {
  create = refl;
  probe = refl;
  some_size = omega arith;
  narrow = omega arith;
  memory = refl;
  reuse = refl;
  get = refl;
}

abbrev two_speakers : StartAnswers
two_speakers = starting (endpoint flow_out 32 ∷ endpoint flow_out 33 ∷ [])

life_two_speakers-leaks_example :
    0 + held 32 (life sizes initial two_speakers calm).adapter.cache.entries + 1
    ≤ (life sizes initial two_speakers calm).adapter.cache.counts 32
unfolding init init_objects init_work_item init_collection init_target init_link init_requests
    make_request make_requests
life_two_speakers-leaks_example =
    life_two_speakers-leaks (λ y. 0) sizes initial two_speakers calm (endpoint flow_out 32)
      (endpoint flow_out 33) [] 32 33 30 31 (λ y. omega arith) refl refl refl refl (granted 30)
      (granted 31) (granted 32) (granted 33)

abbrev failing : Fetch
failing = record (brings 71) { get = failure 0xC0000001 }

get_transport_resources-Owes_example :
    Owes
      (λ y. 0)
      (all_of (get_transport_resources sizes true (brings 70 ∷ []) (failing ∷ []) calm).1)
      (get_transport_resources sizes true (brings 70 ∷ []) (failing ∷ []) calm).2
    × (nt_success (get_transport_resources sizes true (brings 70 ∷ []) (failing ∷ []) calm).0
          ≡ false
        → (get_transport_resources sizes true (brings 70 ∷ []) (failing ∷ []) calm).1 ≡ [])
get_transport_resources-Owes_example =
    get_transport_resources-Owes (λ y. 0) sizes true (brings 70 ∷ []) (failing ∷ []) calm
      (λ y. omega arith)

-- A driver below that has a volume for each endpoint and channel.
abbrev store_request : Code → Params → (ℕ → ℕ → ℕ) → NtStatus × ℕ × (ℕ → ℕ → ℕ)
store_request set_volume p w =
    (success, 0, λ e c. if (e == p.ep_index) && (c == p.channel) then p.value else w e c)
store_request get_volume p w = (success, w p.ep_index p.channel, w)
store_request _ p w = (success, 0, w)

abbrev below : Below
below = record { World = ℕ → ℕ → ℕ; request = store_request }

store_request-keeps :
    (code : Code) (p : Params) (w : ℕ → ℕ → ℕ) (e c : ℕ)
    → sets_volume code ≡ false
    → (store_request code p w).2 e c ≡ w e c
store_request-keeps code p w e c h = ground arith

below-IsStore : IsStore below
below-IsStore = record {
  volume = λ e c w. w e c;
  reads = λ p w now ok. refl;
  stores = λ p w ok. ground arith;
  others = λ p w e c h. ground (arith, h);
  keeps = store_request-keeps;
}

abbrev pair_of_levels : Members
pair_of_levels = record { speaker_ep = 0; mic_ep = 1; speaker_level = 3; mic_level = 4 }

abbrev calls : List Call
calls =
    call_set_mute mic 0 1
    ∷ call_set_volume speaker 0 9
    ∷ call_get_volume speaker 0
    ∷ call_set_volume mic 1 8
    ∷ []

abbrev silent : ℕ → ℕ → ℕ
silent e c = 0

get_device_volume-set_example :
    let s = set_and_run below mic 0 5 calls (pair_of_levels, silent) in
    ((get_device_volume below mic 0 s).1 ≡ some 5)
    × ((get_device_volume below mic 0 s).2 ≡ with_level mic 5 s.0)
    × (some (get_device_mute below mic 0 s).0 ≡ (get_device_volume below mic 0 s).1)
unfolding get_device_volume get_device_mute set_device_volume set_device_mute request_level
    send_level
get_device_volume-set_example =
    get_device_volume-set below below-IsStore mic 0 5 calls pair_of_levels silent (omega arith) refl
      refl refl
