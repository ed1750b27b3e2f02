-- ===== src/Endpoints/Idle.antt =====
-- inferno_driver/common.cpp, GetFilters and SetIdlePowerManagement of CAdapterCommon.
use inferno_windows.Prelude.{
  ℕ, ◌+◌, ◌-◌, ◌%◌, ◌^◌, Bool, true, false, ◌||◌, Option, none, some, List, [], ◌∷◌, ◌++◌, ◌==◌,
  if◌then◌else◌,
}
use inferno_windows.Status.{NtStatus, success, nt_success}
use inferno_windows.Objects.{release}
use inferno_windows.Subdevices.{Cache, get_cached_subdevice}
use inferno_windows.Endpoints.{Services, Minipair, Endpoints, Outs, Wants, wanted, with_counts}

unfoldable pub get_port :
    Bool
    → Bool
    → NtStatus × Option (ℕ × ℕ) × Cache
    → Endpoints
    → NtStatus × Option ℕ × Option ℕ × Endpoints
get_port port miniport (status, some (x, y), cache) s =
    (status, wanted port (some x), wanted miniport (some y), record s { cache = cache })
get_port port miniport (status, none, cache) s = (status, none, none, s)

-- One half of GetFilters: GetCachedSubdevice always gives both interfaces, each with a reference,
-- and the caller gets those that it asked for.
unfoldable pub get_half :
    Bool → Bool → List ℕ → Endpoints → NtStatus × Option ℕ × Option ℕ × Endpoints
get_half port miniport name s =
    if port || miniport
    then get_port port miniport (get_cached_subdevice name s.cache) s
    else (success, none, none, s)

-- GetFilters
unfoldable pub get_filters : Minipair → Wants → Endpoints → NtStatus × Outs × Endpoints
get_filters p wants s =
    let (t, topology, mini_topology, s1) =
      get_half wants.topology wants.mini_topology p.topo_name s in
    let (w, wave, mini_wave, s2) = get_half wants.wave wants.mini_wave p.wave_name s1 in
    if nt_success t
    then (
      w,
      record {
        topology = topology;
        wave = wave;
        mini_topology = mini_topology;
        mini_wave = mini_wave;
      },
      s2,
    )
    else (
      t,
      record { topology = topology; wave = none; mini_topology = mini_topology; mini_wave = none },
      s1,
    )

-- The count of requests is a DWORD; the port is told at the first request to disable and at the last
-- one to enable.
unfoldable pub idle_request : Bool → Endpoints → Endpoints
idle_request true s =
    let left = (s.idle_requests + 2 ^ 32 - 1) % 2 ^ 32 in
    record s {
      idle_requests = left;
      idle_calls = if left == 0 then s.idle_calls ++ (true ∷ []) else s.idle_calls;
    }
idle_request false s = record s {
  idle_requests = (s.idle_requests + 1) % 2 ^ 32;
  idle_calls = if s.idle_requests == 0 then s.idle_calls ++ (false ∷ []) else s.idle_calls;
}

-- With the wave port that GetFilters gave, which is released; that of IPortClsPower is given back.
unfoldable pub request_through :
    Services → Bool → NtStatus × Option ℕ × Endpoints → NtStatus × Endpoints
request_through k enabled (status, none, s) = (status, s)
request_through k enabled (status, some port, s) =
    let done = with_counts (release port s.cache.counts) s in
    if nt_success status
    then (if nt_success (k.query_power port)
        then (k.query_power port, idle_request enabled done)
        else (k.query_power port, done))
    else (status, done)

abbrev pub only_wave : Wants
only_wave = record { topology = false; wave = true; mini_topology = false; mini_wave = false }

-- SetIdlePowerManagement
unfoldable pub set_idle_power_management :
    Services → Minipair → Bool → Endpoints → NtStatus × Endpoints
set_idle_power_management k p enabled s =
    let (status, outs, s1) = get_filters p only_wave s in
    request_through k enabled (status, outs.wave, s1)
