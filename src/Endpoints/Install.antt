-- ===== src/Endpoints/Install.antt =====
-- inferno_driver/common.cpp, InstallEndpointFilters and RemoveEndpointFilters of CAdapterCommon.
use inferno_windows.Prelude.{ℕ, Bool, true, false, Option, none, some, List, if◌then◌else◌}
use inferno_windows.Status.{NtStatus, success, nt_success}
use inferno_windows.Objects.{add_ref_of, release_of}
use inferno_windows.Subdevices.{
  Cache, get_cached_subdevice, cache_subdevice, remove_cached_subdevice,
}
use inferno_windows.Connections.{Connection, connect_topologies, disconnect_topologies}
use inferno_windows.Endpoints.{
  Build, Services, Minipair, Endpoints, Filter, Outs, no_outs, Wants, wanted, with_counts,
  install_subdevice, unregister_subdevice,
}

-- CacheSubdevice on the interfaces of a new filter. The source would call a NULL pointer where one
-- of them is missing.
unfoldable pub cache_filter :
    Build → List ℕ → NtStatus → Option ℕ → Option ℕ → Endpoints → Filter × Endpoints
cache_filter b name status (some port) (some miniport) s =
    let r = cache_subdevice b.room b.power b.change name port miniport s.cache in
    (record { status = r.0; port = some port; miniport = some miniport }, record s { cache = r.1 })
cache_filter b name status port miniport s =
    (record { status = status; port = port; miniport = miniport }, s)

unfoldable pub install_filter : Build → List ℕ → Endpoints → Filter × Endpoints
install_filter b name s =
    let r = install_subdevice b s in
    let c = cache_filter b name r.0.status r.0.port r.0.miniport r.1 in
    if nt_success r.0.status then c else r

-- The filter of a name, from the cache or new; the Boolean says that it is new.
unfoldable pub found_filter :
    Build → List ℕ → NtStatus × Option (ℕ × ℕ) × Cache → Endpoints → Filter × Bool × Endpoints
found_filter b name (status, some (port, miniport), cache) s = (
  record { status = status; port = some port; miniport = some miniport },
  false,
  record s { cache = cache },
)
found_filter b name (status, none, cache) s = let r = install_filter b name s in (r.0, true, r.1)

unfoldable pub get_filter : Build → List ℕ → Endpoints → Filter × Bool × Endpoints
get_filter b name s = found_filter b name (get_cached_subdevice name s.cache) s

-- The connections are made where both ports are there; otherwise the last status stays.
unfoldable pub connect_filters :
    Services → List Connection → NtStatus → Option ℕ → Option ℕ → Endpoints → NtStatus × Endpoints
connect_filters k cs status (some topology) (some wave) s =
    let r = connect_topologies k.ports topology wave cs s.links in (r.0, record s { links = r.1 })
connect_filters k cs status topology wave s = (status, s)

-- A filter that is new goes again.
unfoldable pub undo_filter : Services → List ℕ → Option ℕ → Bool → Endpoints → Endpoints
undo_filter k name (some port) true s =
    let u = (unregister_subdevice k (some port) s).1 in
    record u { cache = (remove_cached_subdevice name u.cache).1 }
undo_filter k name port created s = s

abbrev pub outs_of : Wants → Filter → Filter → Outs
outs_of wants t w = record {
  topology = wanted wants.topology t.port;
  wave = wanted wants.wave w.port;
  mini_topology = wanted wants.mini_topology t.miniport;
  mini_wave = wanted wants.mini_wave w.miniport;
}

abbrev pub add_outs : Outs → (ℕ → ℕ) → ℕ → ℕ
add_outs o counts =
    add_ref_of o.mini_wave
      (add_ref_of o.mini_topology (add_ref_of o.wave (add_ref_of o.topology counts)))

-- The references of the function itself.
abbrev pub release_filters : Filter → Filter → (ℕ → ℕ) → ℕ → ℕ
release_filters t w counts =
    release_of w.port (release_of w.miniport (release_of t.port (release_of t.miniport counts)))

unfoldable pub finish_filters :
    Services
    → Minipair
    → Wants
    → Filter × Bool
    → Filter × Bool
    → NtStatus × Endpoints
    → NtStatus × Outs × Endpoints
finish_filters k p wants (t, new_t) (w, new_w) (status, s) =
    let outs = outs_of wants t w in
    let kept = with_counts (release_filters t w (add_outs outs s.cache.counts)) s in
    let undone =
      undo_filter k p.wave_name w.port new_w (undo_filter k p.topo_name t.port new_t s) in
    let dropped = with_counts (release_filters t w undone.cache.counts) undone in
    if nt_success status then (status, outs, kept) else (status, no_outs, dropped)

-- InstallEndpointFilters
unfoldable pub install_endpoint_filters :
    Services → Minipair → Build → Build → Wants → Endpoints → NtStatus × Outs × Endpoints
install_endpoint_filters k p topo wave wants s =
    let (t, new_t, s1) = get_filter topo p.topo_name s in
    let (w, new_w, s2) = get_filter wave p.wave_name s1 in
    finish_filters k p wants (t, new_t) (w, new_w)
      (connect_filters k p.connections w.status t.port w.port s2)

unfoldable pub disconnect_filters :
    Services → List Connection → Option ℕ → Option ℕ → Endpoints → Endpoints
disconnect_filters k cs (some topology) (some wave) s = record s {
  links = (disconnect_topologies k.ports topology wave cs s.links).1;
}
disconnect_filters k cs topology wave s = s

-- RemoveEndpointFilters
unfoldable pub remove_endpoint_filters :
    Services → Minipair → Option ℕ → Option ℕ → Endpoints → NtStatus × Endpoints
remove_endpoint_filters k p topology wave s =
    let s1 = disconnect_filters k p.connections topology wave s in
    let s2 = record s1 { cache = (remove_cached_subdevice p.wave_name s1.cache).1 } in
    let s3 = (unregister_subdevice k wave s2).1 in
    let s4 = record s3 { cache = (remove_cached_subdevice p.topo_name s3.cache).1 } in
    (success, (unregister_subdevice k topology s4).1)
