-- ===== src/Endpoints/References.antt =====
-- The references that installing the filters of an endpoint leaves.
use inferno_windows.Prelude.{
  ℕ, ◌+◌, ◌≡◌, refl, sym, subst, arith, Bool, true, false, Option, none, some, List, if_both,
  if◌then◌else◌,
}
use inferno_windows.Status.{NtStatus, nt_success}
use inferno_windows.Objects.{one, one_of, add_ref}
use inferno_windows.Subdevices.{Subdevice, find_entry, get_found, get_cached_subdevice}
use inferno_windows.Subdevices.References.{
  IsBalanced, cache_subdevice-IsBalanced, remove_cached_subdevice-IsBalanced,
}
use inferno_windows.Connections.{Connection}
use inferno_windows.Endpoints.{
  Build, Services, Minipair, Endpoints, Filter, Outs, Wants, with_counts, register_subdevice,
  install_miniport, install_port, install_subdevice, unregister_subdevice,
}
use inferno_windows.Endpoints.Install.{
  cache_filter, install_filter, found_filter, get_filter, connect_filters, undo_filter,
  finish_filters, install_endpoint_filters,
}

-- Beside those of others and of the cache, there are the references to the filter.
abbrev Owes : (ℕ → ℕ) → Filter × Endpoints → Type 0
Owes others (f, s) = IsBalanced (λ y. others y + one_of f.port y + one_of f.miniport y) s.cache

register_subdevice-Owes :
    (others : ℕ → ℕ) (b : Build) (s : Endpoints)
    → IsBalanced others s.cache
    → Owes others (register_subdevice b s)
unfolding register_subdevice
register_subdevice-Owes others b s h =
    if_both (Owes others) (nt_success (if nt_success b.init then b.register else b.init))
      (λ y. omega (arith, h y)) (λ y. omega (arith, h y))

install_miniport-Owes :
    (others : ℕ → ℕ) (b : Build) (s : Endpoints)
    → IsBalanced others s.cache
    → Owes others (install_miniport b s)
unfolding install_miniport
install_miniport-Owes others b s h =
    if_both (Owes others) (nt_success b.new_miniport)
      (λ y. omega (
        arith,
        register_subdevice-Owes (λ y. others y + one b.miniport y) b
            (with_counts (add_ref b.miniport s.cache.counts) s) (λ y. omega (arith, h y)) y,
      ))
      (λ y. omega (arith, h y))

install_subdevice-Owes :
    (others : ℕ → ℕ) (b : Build) (s : Endpoints)
    → IsBalanced others s.cache
    → Owes others (install_subdevice b s)
unfolding install_subdevice install_port
install_subdevice-Owes others b s h =
    if_both (Owes others) (nt_success b.interface)
      (if_both (Owes others) (nt_success b.new_port)
        (λ y. omega (
          arith,
          install_miniport-Owes (λ y. others y + one b.port y) b
              (with_counts (add_ref b.port s.cache.counts) s) (λ y. omega (arith, h y)) y,
        ))
        (λ y. omega (arith, h y)))
      (λ y. omega (arith, h y))

cache_filter-Owes :
    (others : ℕ → ℕ) (b : Build) (name : List ℕ) (status : NtStatus) (port miniport : Option ℕ)
    (s : Endpoints)
    → IsBalanced (λ y. others y + one_of port y + one_of miniport y) s.cache
    → Owes others (cache_filter b name status port miniport s)
unfolding cache_filter
cache_filter-Owes others b name status (some port) (some miniport) s h =
    cache_subdevice-IsBalanced _ b.room b.power b.change name port miniport s.cache h
cache_filter-Owes others b name status none miniport s h = h
cache_filter-Owes others b name status (some port) none s h = h

found_filter-Owes :
    (others : ℕ → ℕ) (b : Build) (name : List ℕ) (o : Option Subdevice) (s : Endpoints)
    → IsBalanced others s.cache
    → Owes others (
      (found_filter b name (get_found o s.cache) s).0,
      (found_filter b name (get_found o s.cache) s).2,
    )
unfolding found_filter install_filter get_found
found_filter-Owes others b name none s h =
    if_both (Owes others) (nt_success (install_subdevice b s).0.status)
      (cache_filter-Owes others b name _ _ _ (install_subdevice b s).1
        (install_subdevice-Owes others b s h))
      (install_subdevice-Owes others b s h)
found_filter-Owes others b name (some e) s h = λ y. omega (arith, h y)

get_filter-Owes :
    (others : ℕ → ℕ) (b : Build) (name : List ℕ) (s : Endpoints)
    → IsBalanced others s.cache
    → Owes others ((get_filter b name s).0, (get_filter b name s).2)
unfolding get_filter get_cached_subdevice
get_filter-Owes others b name s h =
    found_filter-Owes others b name (find_entry name s.cache.entries) s h

connect_filters_same :
    (k : Services) (cs : List Connection) (status : NtStatus) (t w : Option ℕ) (s : Endpoints)
    → (connect_filters k cs status t w s).1.cache ≡ s.cache
unfolding connect_filters
connect_filters_same k cs status (some t) (some w) s = refl
connect_filters_same k cs status none w s = refl
connect_filters_same k cs status (some t) none s = refl

pub unregister_subdevice_same :
    (k : Services) (port : Option ℕ) (s : Endpoints)
    → (unregister_subdevice k port s).1.cache ≡ s.cache
unfolding unregister_subdevice
unregister_subdevice_same k none s = refl
unregister_subdevice_same k (some port) s =
    if_both (λ (r : NtStatus × Endpoints). r.1.cache ≡ s.cache)
      (nt_success (k.query_unregister port)) refl refl

undo_filter-IsBalanced :
    (others : ℕ → ℕ) (k : Services) (name : List ℕ) (port : Option ℕ) (created : Bool)
    (s : Endpoints)
    → IsBalanced others s.cache
    → IsBalanced others (undo_filter k name port created s).cache
unfolding undo_filter
undo_filter-IsBalanced others k name (some port) true s h =
    remove_cached_subdevice-IsBalanced others name _
      (subst (IsBalanced others) (sym (unregister_subdevice_same k (some port) s)) h)
undo_filter-IsBalanced others k name (some port) false s h = h
undo_filter-IsBalanced others k name none created s h = h

-- The references that the caller gets.
abbrev pub given : ℕ → Outs → ℕ
given y o = one_of o.topology y + one_of o.wave y + one_of o.mini_topology y + one_of o.mini_wave y

finish_filters-IsBalanced :
    (others : ℕ → ℕ) (k : Services) (p : Minipair) (wants : Wants) (t : Filter) (new_t : Bool)
    (w : Filter) (new_w : Bool) (status : NtStatus) (s : Endpoints)
    → IsBalanced
        (λ y.
          others y + one_of t.port y + one_of t.miniport y + one_of w.port y + one_of w.miniport y)
        s.cache
    → IsBalanced
        (λ y. others y + given y (finish_filters k p wants (t, new_t) (w, new_w) (status, s)).1)
        (finish_filters k p wants (t, new_t) (w, new_w) (status, s)).2.cache
unfolding finish_filters
finish_filters-IsBalanced others k p wants t new_t w new_w status s h =
    if_both
      (λ (r : NtStatus × Outs × Endpoints). IsBalanced (λ y. others y + given y r.1) r.2.cache)
      (nt_success status) (λ y. omega (arith, h y)) (λ y. omega (arith, undone y))
  where
    owed : ℕ → ℕ
    owed = λ y.
        others y + one_of t.port y + one_of t.miniport y + one_of w.port y + one_of w.miniport y

    undone :
        IsBalanced owed
          (undo_filter k p.wave_name w.port new_w (undo_filter k p.topo_name t.port new_t s)).cache
    undone =
        undo_filter-IsBalanced owed k p.wave_name w.port new_w _
          (undo_filter-IsBalanced owed k p.topo_name t.port new_t s h)

-- On every path of InstallEndpointFilters, failures of any step included, each object has in the end
-- the references of others, one for each interface in the cache, and one for each interface that the
-- caller is given.
pub install_endpoint_filters-IsBalanced :
    (others : ℕ → ℕ) (k : Services) (p : Minipair) (topo wave : Build) (wants : Wants)
    (s : Endpoints)
    → IsBalanced others s.cache
    → IsBalanced
        (λ y. others y + given y (install_endpoint_filters k p topo wave wants s).1)
        (install_endpoint_filters k p topo wave wants s).2.cache
unfolding install_endpoint_filters
install_endpoint_filters-IsBalanced others k p topo wave wants s h =
    finish_filters-IsBalanced others k p wants t.0 t.1 w.0 w.1 c.0 c.1 (
      subst (IsBalanced _)
        (sym (connect_filters_same k p.connections w.0.status t.0.port w.0.port w.2))
        (λ y. omega (arith, both y)))
  where
    t : Filter × Bool × Endpoints
    t = get_filter topo p.topo_name s

    w : Filter × Bool × Endpoints
    w = get_filter wave p.wave_name t.2

    c : NtStatus × Endpoints
    c = connect_filters k p.connections w.0.status t.0.port w.0.port w.2

    both : Owes (λ y. others y + one_of t.0.port y + one_of t.0.miniport y) (w.0, w.2)
    both =
        get_filter-Owes (λ y. others y + one_of t.0.port y + one_of t.0.miniport y) wave p.wave_name
          t.2 (get_filter-Owes others topo p.topo_name s h)
