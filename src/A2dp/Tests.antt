-- ===== src/A2dp/Tests.antt =====
-- Runs of the life of a Bluetooth headphone.
use inferno_windows.Prelude.{◌+◌, refl, some, [], ◌∷◌, arith}
use inferno_windows.Status.{success}
use inferno_windows.Subdevices.References.{IsBalanced}
use inferno_windows.Usb.{flow_out}
use inferno_windows.Usb.Samples.{sizes, brings, answers, initial, endpoint, calm}
use inferno_windows.A2dp.{A2dpStart}
use inferno_windows.A2dp.Life.{A2dpLife, a2dp_life, a2dp_kept, a2dp_life-IsBalanced}

abbrev headphone : A2dpStart
headphone = record {
  capabilities = success;
  capabilities_size = 48;
  descriptor = brings 30;
  endpoints = endpoint flow_out 32 ∷ [];
  speaker = record {
    common = answers 40;
    memory = some 60;
    cb_size = 40;
    custom = 1;
    connection = (answers 40).notice;
    siop = (answers 40).notice;
  };
  claim = success;
  unclaim = success;
}

abbrev lived : A2dpLife
lived = record {
  sizes = sizes;
  caps_size = 24;
  init = initial;
  start = headphone;
  codecs = brings 61 ∷ brings 62 ∷ [];
}

a2dp_life-IsBalanced_example :
    IsBalanced (λ y. 0 + a2dp_kept lived calm y) (a2dp_life lived calm).adapter.cache
a2dp_life-IsBalanced_example =
    a2dp_life-IsBalanced (λ y. 0) lived calm (λ y. omega arith) (omega arith) refl refl
