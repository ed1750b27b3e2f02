-- ===== src/Endpoints.antt =====
-- inferno_driver/common.cpp, the subdevices of CAdapterCommon: InstallSubdevice and
-- UnregisterSubdevice.
pub mod Install
pub mod Idle
pub mod References
pub mod Outcomes
pub mod Requests
mod Tests
use inferno_windows.Prelude.{
  ℕ, ◌+◌, ◌-◌, ◌%◌, ◌^◌, Bool, true, false, ◌||◌, Option, none, some, List, [], ◌∷◌, ◌++◌, ◌==◌,
  if◌then◌else◌,
}
use inferno_windows.Status.{NtStatus, success, nt_success}
use inferno_windows.Objects.{add_ref, add_ref_of, release, release_of}
use inferno_windows.Subdevices.{Cache}
use inferno_windows.Connections.{Connection, Link, Ports}

-- What making a subdevice meets: the statuses of CreateAudioInterfaceWithProperties, PcNewPort, the
-- function that makes the miniport, IPort::Init, PcRegisterSubdevice, and of QueryInterface for the
-- IUnknown of the two objects; then what CacheSubdevice meets.
pub record Build : Type 0 where
  pub interface : NtStatus
  pub new_port : NtStatus
  pub port : ℕ
  pub new_miniport : NtStatus
  pub miniport : ℕ
  pub init : NtStatus
  pub register : NtStatus
  pub query_port : NtStatus
  pub query_miniport : NtStatus
  pub room : Bool
  pub power : Option ℕ
  pub change : Option ℕ

-- The services on ports that are registered: QueryInterface for IUnregisterSubdevice and its
-- UnregisterSubdevice, and QueryInterface for IPortClsPower.
pub record Services : Type 0 where
  pub ports : Ports
  pub query_unregister : ℕ → NtStatus
  pub unregister : ℕ → List ℕ → NtStatus
  pub query_power : ℕ → NtStatus

-- ENDPOINT_MINIPAIR
pub record Minipair : Type 0 where
  pub topo_name : List ℕ
  pub wave_name : List ℕ
  pub connections : List Connection

-- The cache with the counts, the ports that are registered, the connections, m_dwIdleRequests, and
-- the calls of SetIdlePowerManagement of a port so far.
pub record Endpoints : Type 0 where
  pub cache : Cache
  pub registered : List ℕ
  pub links : List Link
  pub idle_requests : ℕ
  pub idle_calls : List Bool

-- A status with the two interfaces of a filter.
pub record Filter : Type 0 where
  pub status : NtStatus
  pub port : Option ℕ
  pub miniport : Option ℕ

abbrev pub with_counts : (ℕ → ℕ) → Endpoints → Endpoints
with_counts counts s = record s { cache = record { entries = s.cache.entries; counts = counts } }

abbrev pub taken : NtStatus → ℕ → Option ℕ
taken status x = if nt_success status then some x else none

abbrev pub no_filter : NtStatus → Filter
no_filter status = record { status = status; port = none; miniport = none }

-- With both objects made. The status of the second QueryInterface replaces that of the first.
unfoldable pub register_subdevice : Build → Endpoints → Filter × Endpoints
register_subdevice b s =
    let status = if nt_success b.init then b.register else b.init in
    let port = taken b.query_port b.port in
    let miniport = taken b.query_miniport b.miniport in
    if nt_success status
    then (
      record { status = b.query_miniport; port = port; miniport = miniport },
      record (with_counts (add_ref_of miniport (add_ref_of port s.cache.counts)) s) {
        registered = s.registered ++ (b.port ∷ []);
      },
    )
    else (no_filter status, s)

-- Each object that was made has a reference until the end.
unfoldable pub install_miniport : Build → Endpoints → Filter × Endpoints
install_miniport b s =
    let r = register_subdevice b (with_counts (add_ref b.miniport s.cache.counts) s) in
    if nt_success b.new_miniport
    then (r.0, with_counts (release b.miniport r.1.cache.counts) r.1)
    else (no_filter b.new_miniport, s)

unfoldable pub install_port : Build → Endpoints → Filter × Endpoints
install_port b s =
    let r = install_miniport b (with_counts (add_ref b.port s.cache.counts) s) in
    if nt_success b.new_port
    then (r.0, with_counts (release b.port r.1.cache.counts) r.1)
    else (no_filter b.new_port, s)

-- InstallSubdevice, for a caller that asks for the IUnknown of both objects.
unfoldable pub install_subdevice : Build → Endpoints → Filter × Endpoints
install_subdevice b s =
    let r = install_port b s in if nt_success b.interface then r else (no_filter b.interface, s)

abbrev pub remove_port : ℕ → List ℕ → List ℕ
remove_port x [] = []
remove_port x (y ∷ ys) = if x == y then ys else y ∷ remove_port x ys

-- UnregisterSubdevice
unfoldable pub unregister_subdevice : Services → Option ℕ → Endpoints → NtStatus × Endpoints
unregister_subdevice k none s = (success, s)
unregister_subdevice k (some port) s =
    let status = k.unregister port s.registered in
    if nt_success (k.query_unregister port)
    then (
      status,
      record s {
        registered = if nt_success status then remove_port port s.registered else s.registered;
      },
    )
    else (k.query_unregister port, s)

-- The interfaces that a caller asked for and got.
pub record Outs : Type 0 where
  pub topology : Option ℕ
  pub wave : Option ℕ
  pub mini_topology : Option ℕ
  pub mini_wave : Option ℕ

abbrev pub no_outs : Outs
no_outs = record { topology = none; wave = none; mini_topology = none; mini_wave = none }

pub record Wants : Type 0 where
  pub topology : Bool
  pub wave : Bool
  pub mini_topology : Bool
  pub mini_wave : Bool

abbrev pub wanted : Bool → Option ℕ → Option ℕ
wanted b o = if b then o else none
