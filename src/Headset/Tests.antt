-- ===== src/Headset/Tests.antt =====
-- Runs of a sideband device.
use inferno_windows.Prelude.{ℕ, ◌≡◌, ◌⊎◌, refl, true, false, none, some, List, [], ◌∷◌, ◌++◌, arith}
use inferno_windows.Status.{success, unsuccessful, not_supported}
use inferno_windows.Headset.{Direction, Opening, Starting, a2dp_stream_start}
use inferno_windows.Headset.Gate.{Use, run_uses, IsCounted}
use inferno_windows.Headset.Users.{open_gate, start_gate, opens-IsCounted, starts-IsCounted}
use inferno_windows.Headset.Restart.{a2dp_stream_start_stuck}
use inferno_windows.Headset.Formats.{
  Format, verify_endpoint_format_compatibility, NoneMatches, IsLastMatch,
  verify_endpoint_format_compatibility_last,
}
use inferno_windows.Headset.Notices.{
  Request, Notifier, volume, other, notification_status_work_item,
}
use inferno_windows.Headset.Updates.{going_out, newest, notification_status_work_item_lem}

abbrev idle : Direction
idle = record {
  opens = 0;
  starts = 0;
  status = success;
  watching = false;
  resources = false;
  opened = [];
  started = [];
}

abbrev opens : List (Use Opening)
opens =
    Use.begin (record { open_stream = success; enable = unsuccessful })
    ∷ Use.begin (record { open_stream = success; enable = success })
    ∷ Use.begin (record { open_stream = unsuccessful; enable = success })
    ∷ Use.finish success
    ∷ []

opens-IsCounted_example : IsCounted open_gate 1 (run_uses open_gate opens idle)
opens-IsCounted_example = opens-IsCounted opens idle 0 1 (omega arith) refl (refl, (0, refl))

abbrev starts : List (Use Starting)
starts =
    Use.begin (record { prepare = success; start = success; get = unsuccessful })
    ∷ Use.begin (record { prepare = success; start = success; get = success })
    ∷ Use.finish unsuccessful
    ∷ []

starts-IsCounted_example : IsCounted start_gate 0 (run_uses start_gate starts idle)
starts-IsCounted_example = starts-IsCounted starts idle 0 0 (omega arith) refl (refl, (0, refl))

a2dp_stream_start_stuck_example :
    ((a2dp_stream_start unsuccessful idle).0 ≡ unsuccessful)
    × ((a2dp_stream_start success (a2dp_stream_start unsuccessful idle).1).0 ≡ success)
    × ((a2dp_stream_start success (a2dp_stream_start unsuccessful idle).1).1.started ≡ [])
a2dp_stream_start_stuck_example = a2dp_stream_start_stuck unsuccessful success idle refl refl

abbrev format : ℕ → Format
format rate = record { size = 104; samples_per_sec = rate; channels = 2; bits_per_sample = 16 }

abbrev hardware : List Format
hardware = format 44100 ∷ format 48000 ∷ format 96000 ∷ []

abbrev endpoint : List Format
endpoint = format 48000 ∷ format 44100 ∷ []

verify_endpoint_format_compatibility_last_example :
    ((verify_endpoint_format_compatibility 64 88 endpoint hardware ≡ (not_supported, none))
      × NoneMatches 64 88 endpoint hardware)
    ⊎ ((k : ℕ) × (verify_endpoint_format_compatibility 64 88 endpoint hardware ≡ (success, some k))
        × IsLastMatch 64 88 endpoint hardware k)
verify_endpoint_format_compatibility_last_example =
    verify_endpoint_format_compatibility_last 64 88 endpoint hardware

abbrev update : ℕ → ℕ → Request
update endpoint value = record {
  status = success;
  control = volume;
  endpoint = endpoint;
  value = value;
  errors = 0;
  again = success;
}

abbrev notifier : Notifier
notifier = record {
  speaker_endpoint = 0;
  mic_endpoint = 1;
  speaker_volume = record { current = 5; handled = true; calls = 0 };
  mic_volume = record { current = 5; handled = false; calls = 0 };
  speaker_mute = record { current = 0; handled = true; calls = 0 };
  mic_mute = record { current = 0; handled = true; calls = 0 };
  waiting = update 0 7 ∷ update 1 8 ∷ record (update 0 9) { control = other } ∷ [];
  sent = [];
}

notification_status_work_item_lem_example :
    let t = notification_status_work_item notifier in
    (t.waiting ≡ [])
    × (t.sent ≡ [] ++ going_out notifier.waiting)
    × (t.speaker_volume.current ≡ newest notifier.waiting 0 5)
notification_status_work_item_lem_example =
    notification_status_work_item_lem notifier (refl, (refl, (refl, refl)))
