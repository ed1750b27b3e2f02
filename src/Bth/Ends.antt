-- ===== src/Bth/Ends.antt =====
-- inferno_driver/BthhfpDevice.cpp, BthHfpDevice::Init, BthHfpDevice::Stop and the destructor.
use inferno_windows.Prelude.{false, none, List, [], ◌∷◌, ◌||◌, if◌then◌else◌}
use inferno_windows.Status.{NtStatus, success, nt_success}
use inferno_windows.Endpoints.{Services, Minipair}
use inferno_windows.Endpoints.Install.{remove_endpoint_filters}
use inferno_windows.Remote.{Io, free_list}
use inferno_windows.Remote.Pairs.{delete_custom_endpoint_minipair}
use inferno_windows.Usb.Start.{Request, initializing, running, stopped}
use inferno_windows.Usb.Ends.{InitAnswers, no_objects, is_some}
use inferno_windows.Usb.Destroy.{free_requests}
use inferno_windows.A2dp.Ends.{a2dp_init_objects}
use inferno_windows.Bth.{Bth, Filters}

abbrev pub no_filters : Filters
no_filters = record { miniports = none; topology = none; wave = none }

abbrev pub new_bth : Bth
new_bth = record {
  phase = initializing;
  objects = no_objects;
  descriptor = none;
  volume_values = none;
  speaker_level = 0;
  mic_level = 0;
  connected = false;
  codec = 0;
  speaker = no_filters;
  mic = no_filters;
}

-- Init, whose steps are those of A2dpHpDevice. The first of its requests is that for the status of
-- echo cancellation, m_NRECDisableStatusReq.
unfoldable pub bth_init : InitAnswers → Io → NtStatus × (Bth × Io)
bth_init a io =
    let r = a2dp_init_objects a (no_objects, io) in
    let u = record new_bth { objects = r.1.0 } in
    if nt_success r.0 then (success, (record u { phase = running }, r.1.1)) else (r.0, (u, r.1.1))

unfoldable pub bth_remove_filters : Services → Minipair → Filters → Io → Io
bth_remove_filters k pair p io =
    let r = remove_endpoint_filters k pair p.topology p.wave io.adapter in
    if is_some p.topology || is_some p.wave then record io { adapter = r.1 } else io

abbrev pub removed : Filters → Filters
removed p = record p { topology = none; wave = none }

-- Stop
unfoldable pub bth_stop : Services → Minipair → Minipair → Bth × Io → Bth × Io
bth_stop k speaker_pair mic_pair (u, io) =
    let i1 = bth_remove_filters k speaker_pair u.speaker io in
    let i2 = bth_remove_filters k mic_pair u.mic i1 in
    let i3 =
      free_list (u.speaker.topology ∷ u.speaker.wave ∷ u.mic.topology ∷ u.mic.wave ∷ []) i2 in
    (record u { phase = stopped; speaker = removed u.speaker; mic = removed u.mic }, i3)

-- The requests that the destructor deletes: m_NRECDisableStatusReq is not among them.
abbrev pub without_first : List Request → List Request
without_first [] = []
without_first (q ∷ qs) = qs

-- The destructor.
unfoldable pub bth_destroy : Bth → Io → Io
bth_destroy u io =
    let i1 = free_list (u.objects.target ∷ u.objects.link ∷ []) io in
    let i2 =
      delete_custom_endpoint_minipair u.mic.miniports
        (delete_custom_endpoint_minipair u.speaker.miniports i1) in
    let i3 = free_list (u.descriptor ∷ u.volume_values ∷ []) i2 in
    let i4 = free_requests (without_first u.objects.requests) i3 in
    free_list
      (u.objects.work_item ∷ u.objects.collection ∷ u.speaker.topology ∷ u.speaker.wave
        ∷ u.mic.topology ∷ u.mic.wave ∷ [])
      i4
