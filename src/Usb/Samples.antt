-- ===== src/Usb/Samples.antt =====
-- Data for runs of the lives of devices.
use inferno_windows.Prelude.{ℕ, ◌+◌, true, false, none, some, List, [], ◌∷◌}
use inferno_windows.Status.{success, failure}
use inferno_windows.Connections.{wave_output}
use inferno_windows.Endpoints.{Build, Services, Minipair}
use inferno_windows.Headset.Formats.{Format}
use inferno_windows.Remote.{Io, Fetch}
use inferno_windows.Remote.Levels.{Sizes}
use inferno_windows.Usb.{Flow, flow_out, flow_in, Answers}
use inferno_windows.Usb.Start.{Endpoint, StartAnswers}
use inferno_windows.Usb.Ends.{Made, RequestMade, InitAnswers}

abbrev pub services : Services
services = record {
  ports = record {
    register = λ l links. success;
    unregister = λ l links. success;
    query = success;
  };
  query_unregister = λ x. success;
  unregister = λ x xs. success;
  query_power = λ x. success;
}

abbrev pub pair : Minipair
pair = record {
  topo_name = 84 ∷ [];
  wave_name = 87 ∷ [];
  connections = record { topology = 0; wave = 1; kind = wave_output } ∷ [];
}

abbrev pub build : ℕ → Build
build x = record {
  interface = success;
  new_port = success;
  port = x;
  new_miniport = success;
  miniport = x + 1;
  init = success;
  register = success;
  query_port = success;
  query_miniport = success;
  room = true;
  power = none;
  change = none;
}

abbrev pub calm : Io
calm = record {
  adapter = record {
    cache = record { entries = []; counts = λ y. 0 };
    registered = [];
    links = [];
    idle_requests = 0;
    idle_calls = [];
  };
  power = record { devices = []; counts = λ y. 0; information = none };
  accesses = [];
}

abbrev pub sizes : Sizes
sizes = record { volume = 12; mute = 12; buffer = 16; siop = 24; formats = 8; bool = 4 }

abbrev pub brings : ℕ → Fetch
brings b = record {
  create = success;
  object = 7;
  probe = failure 0xC0000023;
  information = 64;
  memory = some b;
  reuse = success;
  get = success;
}

abbrev pub cd : Format
cd = record { size = 82; samples_per_sec = 44100; channels = 2; bits_per_sample = 16 }

-- What one direction meets, with blocks and objects from the number `x` on.
abbrev pub answers : ℕ → Answers
answers x = record {
  volume = record {
    memory = some x;
    get = success;
    level = record { status = success; value = 5 };
  };
  mute = record {
    memory = some (x + 1);
    get = success;
    level = record { status = success; value = 0 };
  };
  formats = brings (x + 2);
  base = record { property_count = 2; categories = 5 ∷ 6 ∷ []; audio = 5; category = 9 };
  blocks = record {
    properties = some (x + 3);
    pair = some (x + 4);
    filter = some (x + 5);
    pins = some (x + 6);
    wave = none;
  };
  base_size = 64;
  wave_size = 82;
  hardware = cd ∷ [];
  offered = cd ∷ [];
  services = services;
  pair = pair;
  topo_build = build (x + 7);
  wave_build = build (x + 9);
  notice = record { format = success; sent = true; status = success };
}

abbrev pub made : ℕ → Made
made x = record { status = success; object = x }

abbrev pub request_made : ℕ → RequestMade
request_made x = record { request = made x; mem_in = made (x + 1); mem_out = made (x + 2) }

abbrev pub initial : InitAnswers
initial = record {
  work_item = made 10;
  collection = made 11;
  target = made 12;
  target_opened = success;
  room = true;
  pdo = 99;
  link = some 13;
  requests = request_made 20 ∷ request_made 23 ∷ [];
  names = success;
}

abbrev pub endpoint : Flow → ℕ → Endpoint
endpoint flow b = record {
  fetch = brings b;
  flow = flow;
  has_volume = true;
  has_mute = true;
  feedback = false;
  volume_size = 32;
  mute_size = 32;
}

abbrev pub starting : List Endpoint → StartAnswers
starting es = record {
  descriptor = brings 30;
  behind_hub = brings 31;
  endpoints = es;
  speaker = answers 40;
  mic = answers 60;
  pair = success;
  claim = success;
  unclaim = success;
}

abbrev pub headset : StartAnswers
headset = starting (endpoint flow_out 32 ∷ endpoint flow_in 33 ∷ [])
