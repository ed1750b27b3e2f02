-- ===== src/Bth/Tests.antt =====
-- Runs of the life of a hands-free Bluetooth headset.
use inferno_windows.Prelude.{ℕ, ◌+◌, true, some, [], ◌∷◌, arith}
use inferno_windows.Status.{success}
use inferno_windows.Subdevices.References.{IsBalanced}
use inferno_windows.Usb.{Notice}
use inferno_windows.Usb.Samples.{services, pair, build, brings, answers, initial, calm}
use inferno_windows.Bth.{BthSizes, FilterAnswers, BthStart}
use inferno_windows.Bth.Life.{BthLife, bth_life, bth_kept, bth_life-IsBalanced}

abbrev bytes : BthSizes
bytes = record {
  capabilities = 8;
  immediate = 1;
  volume = 4;
  buffer = 4;
  bool = 4;
  version = 4;
  codec = 8;
  codec_buffer = 8;
}

abbrev direction : ℕ → FilterAnswers
direction x = record {
  base = λ wide. (answers x).base;
  blocks = (answers x).blocks;
  services = services;
  pair = pair;
  topo_build = build (x + 7);
  wave_build = build (x + 9);
}

abbrev notice : Notice
notice = record { format = success; sent = true; status = success }

abbrev handsfree : BthStart
handsfree = record {
  capabilities = success;
  descriptor = brings 30;
  has_volume = true;
  values_size = 32;
  memory = some 31;
  values = success;
  speaker_volume = record { status = success; value = 5 };
  mic_volume = record { status = success; value = 6 };
  connection = success;
  connected = true;
  codec = record { status = success; value = 1 };
  speaker = direction 40;
  mic = direction 60;
  pair = success;
  notices = notice ∷ notice ∷ notice ∷ notice ∷ [];
}

abbrev lived : BthLife
lived = record { sizes = bytes; init = initial; start = handsfree }

bth_life-IsBalanced_example :
    IsBalanced (λ y. 0 + bth_kept lived calm y) (bth_life lived calm).adapter.cache
bth_life-IsBalanced_example = bth_life-IsBalanced (λ y. 0) lived calm (λ y. omega arith)
