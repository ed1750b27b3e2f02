-- ===== src/Endpoints/Outcomes.antt =====
-- What InstallEndpointFilters returns.
use inferno_windows.Prelude.{
  arith, ℕ, ◌≡◌, refl, ap, sym, ◌∙◌, subst, Bool, true, Option, none, some, List, if_true, if_both,
}
use inferno_windows.Status.{NtStatus, nt_success}
use inferno_windows.Connections.{Connection, Link}
use inferno_windows.Endpoints.{
  Build, Services, Minipair, Endpoints, Filter, Outs, Wants, wanted, install_subdevice,
  install_port, install_miniport, register_subdevice,
}
use inferno_windows.Subdevices.{Cache, get_cached_subdevice}
use inferno_windows.Endpoints.Install.{
  get_filter, found_filter, install_filter, cache_filter, connect_filters, finish_filters,
  install_endpoint_filters,
}

connect_filters_missing :
    (k : Services) (cs : List Connection) (status : NtStatus) (t w : Option ℕ) (s : Endpoints)
    → t ≡ none
    → connect_filters k cs status t w s ≡ (status, s)
unfolding connect_filters
connect_filters_missing k cs status none w s h = refl
connect_filters_missing k cs status (some t) w s h = absurd cc

cache_filter-links :
    (b : Build) (name : List ℕ) (status : NtStatus) (port miniport : Option ℕ) (s : Endpoints)
    → (cache_filter b name status port miniport s).1.links ≡ s.links
unfolding cache_filter
cache_filter-links b name status none miniport s = refl
cache_filter-links b name status (some port) none s = refl
cache_filter-links b name status (some port) (some miniport) s = refl

install_subdevice-links : (b : Build) (s : Endpoints) → (install_subdevice b s).1.links ≡ s.links
unfolding install_subdevice install_port install_miniport register_subdevice
install_subdevice-links b s = ground arith

install_filter-links :
    (b : Build) (name : List ℕ) (s : Endpoints) → (install_filter b name s).1.links ≡ s.links
unfolding install_filter
install_filter-links b name s =
    let r = install_subdevice b s in
    ground (
      arith,
      install_subdevice-links b s,
      cache_filter-links b name r.0.status r.0.port r.0.miniport r.1,
    )

found_filter-links :
    (b : Build) (name : List ℕ) (status : NtStatus) (found : Option (ℕ × ℕ)) (cache : Cache)
    (s : Endpoints)
    → (found_filter b name (status, found, cache) s).2.links ≡ s.links
unfolding found_filter
found_filter-links b name status none cache s = install_filter-links b name s
found_filter-links b name status (some (port, miniport)) cache s = refl

get_filter-links :
    (b : Build) (name : List ℕ) (s : Endpoints) → (get_filter b name s).2.links ≡ s.links
unfolding get_filter
get_filter-links b name s =
    let r : NtStatus × Option (ℕ × ℕ) × Cache = get_cached_subdevice name s.cache in
    found_filter-links b name r.0 r.1 r.2 s

-- A success without a topology filter, with the connections that were there before.
abbrev HasNoTopology : List Link → NtStatus × Outs × Endpoints → Type 0
HasNoTopology links r = (nt_success r.0 ≡ true) × (r.1.topology ≡ none) × (r.2.links ≡ links)

finish_filters_missing :
    (k : Services) (p : Minipair) (wants : Wants) (t : Filter) (new_t : Bool) (w : Filter)
    (new_w : Bool) (c : NtStatus × Endpoints)
    → t.port ≡ none
    → nt_success c.0 ≡ true
    → HasNoTopology c.1.links (finish_filters k p wants (t, new_t) (w, new_w) c)
unfolding finish_filters
finish_filters_missing k p wants t new_t w new_w c missing good =
    subst (HasNoTopology c.1.links) (sym (if_true (nt_success c.0) _ _ good)) (
      good,
      ap (wanted wants.topology) missing
          ∙ if_both (λ (o : Option ℕ). o ≡ none) wants.topology refl refl,
      refl,
    )

-- When no topology filter can be had but the wave filter can, InstallEndpointFilters connects
-- nothing, gives no topology filter, and returns success.
pub install_endpoint_filters_loses :
    (k : Services) (p : Minipair) (topo wave : Build) (wants : Wants) (s : Endpoints)
    → (get_filter topo p.topo_name s).0.port ≡ none
    → nt_success (get_filter wave p.wave_name (get_filter topo p.topo_name s).2).0.status ≡ true
    → (nt_success (install_endpoint_filters k p topo wave wants s).0 ≡ true)
      × ((install_endpoint_filters k p topo wave wants s).1.topology ≡ none)
      × ((install_endpoint_filters k p topo wave wants s).2.links ≡ s.links)
unfolding install_endpoint_filters
install_endpoint_filters_loses k p topo wave wants s missing good =
    let (succeeds, nothing, same) =
      finish_filters_missing k p wants t.0 t.1 w.0 w.1 c missing
        (ap (λ (c : NtStatus × Endpoints). nt_success c.0) alone ∙ good) in
    (
      succeeds,
      nothing,
      same
          ∙ ap (λ (c : NtStatus × Endpoints). c.1.links) alone
          ∙ get_filter-links wave p.wave_name t.2
          ∙ get_filter-links topo p.topo_name s,
    )
  where
    t : Filter × Bool × Endpoints
    t = get_filter topo p.topo_name s

    w : Filter × Bool × Endpoints
    w = get_filter wave p.wave_name t.2

    c : NtStatus × Endpoints
    c = connect_filters k p.connections w.0.status t.0.port w.0.port w.2

    alone : c ≡ (w.0.status, w.2)
    alone = connect_filters_missing k p.connections w.0.status t.0.port w.0.port w.2 missing
