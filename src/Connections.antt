-- ===== src/Connections.antt =====
-- inferno_driver/common.cpp, CAdapterCommon::ConnectTopologies and DisconnectTopologies: the
-- connections between the pins of a topology filter and those of a wave filter.
pub mod Undo
pub mod Statuses
mod Tests
use inferno_windows.Prelude.{
  ℕ, Bool, true, false, ◌&&◌, ◌||◌, List, [], ◌∷◌, ◌++◌, ◌==◌, if◌then◌else◌,
}
use inferno_windows.Status.{NtStatus, success, nt_success}

-- CONNECTIONTYPE_TOPOLOGY_OUTPUT, CONNECTIONTYPE_WAVE_OUTPUT
pub data ConnectionType : Type 0 where
  topology_output wave_output : ConnectionType

-- PHYSICALCONNECTIONTABLE: the numbers of the two pins.
pub record Connection : Type 0 where
  pub topology : ℕ
  pub wave : ℕ
  pub kind : ConnectionType

-- A connection that is registered: from a pin of a filter to a pin of another.
pub record Link : Type 0 where
  pub source : ℕ
  pub source_pin : ℕ
  pub target : ℕ
  pub target_pin : ℕ

-- PcRegisterPhysicalConnection, and UnregisterPhysicalConnection of a port, on the connections that
-- are registered; `query` is the status of QueryInterface for the latter.
pub record Ports : Type 0 where
  pub register : Link → List Link → NtStatus
  pub unregister : Link → List Link → NtStatus
  pub query : NtStatus

abbrev pub same_link : Link → Link → Bool
same_link a b =
    (a.source == b.source)
    && ((a.source_pin == b.source_pin)
        && ((a.target == b.target) && (a.target_pin == b.target_pin)))

abbrev pub has_link : Link → List Link → Bool
has_link l [] = false
has_link l (x ∷ xs) = same_link l x || has_link l xs

-- A connection that is unregistered is gone.
abbrev pub remove_link : Link → List Link → List Link
remove_link l [] = []
remove_link l (x ∷ xs) = if same_link l x then xs else x ∷ remove_link l xs

-- The two cases of the switch.
abbrev pub link_as : ConnectionType → ℕ → ℕ → Connection → Link
link_as topology_output topology wave c = record {
  source = topology;
  source_pin = c.topology;
  target = wave;
  target_pin = c.wave;
}
link_as wave_output topology wave c = record {
  source = wave;
  source_pin = c.wave;
  target = topology;
  target_pin = c.topology;
}

abbrev pub link_of : ℕ → ℕ → Connection → Link
link_of topology wave c = link_as c.kind topology wave c

abbrev pub register_link : NtStatus → Link → List Link → List Link
register_link status l links = if nt_success status then links ++ (l ∷ []) else links

abbrev pub unregister_link : NtStatus → Link → List Link → List Link
unregister_link status l links = if nt_success status then remove_link l links else links

-- The loop of ConnectTopologies, entered with a status.
unfoldable pub connect_all :
    Ports → ℕ → ℕ → NtStatus → List Connection → List Link → NtStatus × List Link
connect_all p topology wave status [] links = (status, links)
connect_all p topology wave status (c ∷ cs) links =
    let l = link_of topology wave c in
    let next = p.register l links in
    let rest = connect_all p topology wave next cs (register_link next l links) in
    if nt_success status then rest else (status, links)

-- The loop of DisconnectTopologies: `ntStatus2` stays STATUS_SUCCESS.
unfoldable pub disconnect_all :
    Ports → ℕ → ℕ → NtStatus → List Connection → List Link → NtStatus × List Link
disconnect_all p topology wave status [] links = (status, links)
disconnect_all p topology wave status (c ∷ cs) links =
    let l = link_of topology wave c in
    let next = p.unregister l links in
    disconnect_all p topology wave (if nt_success next then success else next) cs
      (unregister_link next l links)

unfoldable pub disconnect_topologies :
    Ports → ℕ → ℕ → List Connection → List Link → NtStatus × List Link
disconnect_topologies p topology wave cs links =
    if nt_success p.query then disconnect_all p topology wave p.query cs links else (p.query, links)

unfoldable pub connect_topologies :
    Ports → ℕ → ℕ → List Connection → List Link → NtStatus × List Link
connect_topologies p topology wave cs links =
    let r = connect_all p topology wave success cs links in
    if nt_success r.0 then r else (r.0, (disconnect_topologies p topology wave cs r.1).1)
