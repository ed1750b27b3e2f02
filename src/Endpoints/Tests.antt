-- ===== src/Endpoints/Tests.antt =====
-- Runs of the endpoints.
use inferno_windows.Prelude.{ℕ, ◌+◌, ◌≡◌, refl, true, false, none, [], ◌∷◌, arith}
use inferno_windows.Status.{success, unsuccessful, nt_success}
use inferno_windows.Objects.{one}
use inferno_windows.Subdevices.{Subdevice}
use inferno_windows.Subdevices.References.{IsBalanced}
use inferno_windows.Connections.{wave_output}
use inferno_windows.Endpoints.{Build, Services, Minipair, Endpoints, Wants}
use inferno_windows.Endpoints.Install.{install_endpoint_filters}
use inferno_windows.Endpoints.Idle.{set_idle_power_management}
use inferno_windows.Endpoints.References.{given, install_endpoint_filters-IsBalanced}
use inferno_windows.Endpoints.Outcomes.{install_endpoint_filters_loses}
use inferno_windows.Endpoints.Requests.{
  requests, IsIdle, requests-IsIdle, set_idle_power_management_leaks,
}
use inferno_windows.Endpoints.Install.{get_filter, found_filter, install_filter, cache_filter}
use inferno_windows.Endpoints.{
  install_subdevice, install_port, install_miniport, register_subdevice,
}
use inferno_windows.Subdevices.{get_cached_subdevice, cache_subdevice}

abbrev services : Services
services = record {
  ports = record {
    register = λ l links. success;
    unregister = λ l links. success;
    query = success;
  };
  query_unregister = λ x. success;
  unregister = λ x xs. success;
  query_power = λ x. success;
}

abbrev speaker : Minipair
speaker = record {
  topo_name = 84 ∷ [];
  wave_name = 87 ∷ [];
  connections = record { topology = 0; wave = 1; kind = wave_output } ∷ [];
}

abbrev build : ℕ → Build
build x = record {
  interface = success;
  new_port = success;
  port = x;
  new_miniport = success;
  miniport = x + 1;
  init = success;
  register = success;
  query_port = success;
  query_miniport = success;
  room = true;
  power = none;
  change = none;
}

abbrev all : Wants
all = record { topology = true; wave = true; mini_topology = true; mini_wave = true }

abbrev nothing : Endpoints
nothing = record {
  cache = record { entries = []; counts = λ y. 0 };
  registered = [];
  links = [];
  idle_requests = 0;
  idle_calls = [];
}

install_endpoint_filters-IsBalanced_example :
    IsBalanced
      (λ y.
        0 + given y (install_endpoint_filters services speaker (build 1) (build 3) all nothing).1)
      (install_endpoint_filters services speaker (build 1) (build 3) all nothing).2.cache
install_endpoint_filters-IsBalanced_example =
    install_endpoint_filters-IsBalanced (λ y. 0) services speaker (build 1) (build 3) all nothing
      (λ y. omega arith)

abbrev broken : Build
broken = record (build 1) { init = unsuccessful }

install_endpoint_filters_loses_example :
    (nt_success (install_endpoint_filters services speaker broken (build 3) all nothing).0 ≡ true)
    × ((install_endpoint_filters services speaker broken (build 3) all nothing).1.topology ≡ none)
    × ((install_endpoint_filters services speaker broken (build 3) all nothing).2.links ≡ [])
unfolding get_filter found_filter get_cached_subdevice install_filter install_subdevice install_port
    install_miniport register_subdevice cache_filter cache_subdevice
install_endpoint_filters_loses_example =
    install_endpoint_filters_loses services speaker broken (build 3) all nothing refl refl

abbrev wave : Subdevice
wave = record { name = 87 ∷ []; port = 3; miniport = 4; power = none; change = none }

abbrev cached : Endpoints
cached = record nothing { cache = record { entries = wave ∷ []; counts = λ y. one 3 y + one 4 y } }

set_idle_power_management_leaks_example :
    (set_idle_power_management services speaker false cached).1.cache.counts 4
    ≡ cached.cache.counts 4 + one 4 4
set_idle_power_management_leaks_example =
    set_idle_power_management_leaks services speaker false wave cached refl 4

requests-IsIdle_example : IsIdle 1 (requests services speaker (false ∷ false ∷ true ∷ []) cached)
requests-IsIdle_example =
    requests-IsIdle (false ∷ false ∷ true ∷ []) services speaker wave cached 0 1 refl refl
      (omega arith) refl (refl, (0, refl))
