-- ===== src/Connections/Tests.antt =====
-- Runs of the connections.
use inferno_windows.Prelude.{
  ◌≡◌, ◌⊎◌, refl, true, false, List, [], ◌∷◌, ◌++◌, arith, if◌then◌else◌, ◌==◌,
}
use inferno_windows.Status.{success, unsuccessful, nt_success}
use inferno_windows.Connections.{
  Connection, Ports, topology_output, wave_output, has_link, connect_topologies,
}
use inferno_windows.Connections.Undo.{Unregisters, links_of, connect_topologies_whole}

-- Ports on which the pin 7 of the wave filter cannot be connected.
abbrev ports : Ports
ports = record {
  register = λ l links. if l.source_pin == 7 then unsuccessful else success;
  unregister = λ l links. if has_link l links then success else unsuccessful;
  query = success;
}

-- A connection that is registered can be unregistered here.
ports-Unregisters : Unregisters ports
ports-Unregisters l links h = ground (arith, h)

abbrev bad : List Connection
bad =
    record { topology = 0; wave = 1; kind = wave_output }
    ∷ record { topology = 2; wave = 7; kind = wave_output }
    ∷ []

abbrev good : List Connection
good =
    record { topology = 0; wave = 1; kind = wave_output }
    ∷ record { topology = 2; wave = 3; kind = topology_output }
    ∷ []

connect_topologies_whole_example :
    ((nt_success (connect_topologies ports 5 6 bad []).0 ≡ true)
      × ((connect_topologies ports 5 6 bad []).1 ≡ [] ++ links_of 5 6 bad))
    ⊎ ((nt_success (connect_topologies ports 5 6 bad []).0 ≡ false)
        × ((connect_topologies ports 5 6 bad []).1 ≡ []))
connect_topologies_whole_example =
    connect_topologies_whole ports 5 6 bad [] ports-Unregisters refl (refl, (refl, refl))
