-- ===== src/Usb/OwnedEnds.antt =====
-- inferno_driver/UsbHsDevice.cpp, UsbHsDevice::Stop and the destructor: what they give back.
use inferno_windows.Prelude.{
  ℕ, ◌+◌, ◌≡◌, refl, sym, subst, arith, ◌||◌, Option, none, some, List, [], ◌∷◌, if_both,
}
use inferno_windows.Objects.{one_of}
use inferno_windows.Subdevices.{remove_cached_subdevice}
use inferno_windows.Subdevices.References.{IsBalanced, remove_cached_subdevice-IsBalanced}
use inferno_windows.Connections.{Connection}
use inferno_windows.Endpoints.{Services, Minipair, Endpoints, unregister_subdevice}
use inferno_windows.Endpoints.Install.{disconnect_filters, remove_endpoint_filters}
use inferno_windows.Endpoints.References.{unregister_subdevice_same}
use inferno_windows.Remote.{Io, free_of, free_list}
use inferno_windows.Remote.Pairs.{delete_custom_endpoint_minipair}
use inferno_windows.Remote.Owned.{Owes, all_of, free_of-Owes, free_list-Owes}
use inferno_windows.Remote.OwnedPairs.{own_blocks, delete_custom_endpoint_minipair-Owes}
use inferno_windows.Usb.{Side}
use inferno_windows.Usb.Start.{Request, Usb}
use inferno_windows.Usb.Ends.{is_some, remove_filters, stop}
use inferno_windows.Usb.Destroy.{descriptor_block, free_target, free_parts, free_requests, destroy}
use inferno_windows.Usb.OwnedStart.{parts_blocks, requests_blocks, usb_blocks, OwesUsb}

disconnect_filters_same :
    (k : Services) (cs : List Connection) (t w : Option ℕ) (s : Endpoints)
    → (disconnect_filters k cs t w s).cache ≡ s.cache
unfolding disconnect_filters
disconnect_filters_same k cs (some t) (some w) s = refl
disconnect_filters_same k cs none w s = refl
disconnect_filters_same k cs (some t) none s = refl

-- Removing the filters of an endpoint gives back the references that the cache had to them, and no
-- others.
pub remove_endpoint_filters-IsBalanced :
    (others : ℕ → ℕ) (k : Services) (p : Minipair) (t w : Option ℕ) (s : Endpoints)
    → IsBalanced others s.cache
    → IsBalanced others (remove_endpoint_filters k p t w s).1.cache
unfolding remove_endpoint_filters
remove_endpoint_filters-IsBalanced others k p t w s h =
    let s1 = disconnect_filters k p.connections t w s in
    let s2 = record s1 { cache = (remove_cached_subdevice p.wave_name s1.cache).1 } in
    let s3 = (unregister_subdevice k w s2).1 in
    let s4 = record s3 { cache = (remove_cached_subdevice p.topo_name s3.cache).1 } in
    let h1 = subst (IsBalanced others) (sym (disconnect_filters_same k p.connections t w s)) h in
    let h2 = remove_cached_subdevice-IsBalanced others p.wave_name s1.cache h1 in
    let h3 = subst (IsBalanced others) (sym (unregister_subdevice_same k w s2)) h2 in
    let h4 = remove_cached_subdevice-IsBalanced others p.topo_name s3.cache h3 in
    subst (IsBalanced others) (sym (unregister_subdevice_same k t s4)) h4

pub remove_filters-Owes :
    (others held : ℕ → ℕ) (k : Services) (p : Minipair) (s : Side) (io : Io)
    → Owes others held io
    → Owes others held (remove_filters k p s io)
unfolding remove_filters
remove_filters-Owes others held k p s io h =
    if_both (Owes others held) (is_some s.topology || is_some s.wave)
      (remove_endpoint_filters-IsBalanced (λ y. others y + held y) k p s.topology s.wave io.adapter
        h)
      h

-- Stop gives back the filters, and leaves the rest to the destructor.
pub stop-OwesUsb :
    (others : ℕ → ℕ) (k : Services) (speaker mic : Minipair) (u : Usb) (io : Io)
    → OwesUsb others (u, io)
    → OwesUsb others (stop k speaker mic (u, io))
unfolding stop
stop-OwesUsb others k speaker mic u io h =
    let held = usb_blocks (stop k speaker mic (u, io)).0 in
    let i1 = remove_filters k speaker u.speaker io in
    let i2 = remove_filters k mic u.mic i1 in
    let h1 = remove_filters-Owes others (usb_blocks u) k speaker u.speaker io h in
    let h2 = remove_filters-Owes others (usb_blocks u) k mic u.mic i1 h1 in
    free_list-Owes others held
      (u.speaker.topology ∷ u.speaker.wave ∷ u.mic.topology ∷ u.mic.wave ∷ []) i2
      (λ y. omega (arith, h2 y))

free_target-Owes :
    (others held : ℕ → ℕ) (pdo : ℕ) (o : Option ℕ) (io : Io)
    → Owes others (λ y. held y + one_of o y) io
    → Owes others held (free_target pdo o io)
free_target-Owes others held pdo none io h = λ y. omega (arith, h y)
free_target-Owes others held pdo (some t) io h = λ y. omega (arith, h y)

free_parts-Owes :
    (others held : ℕ → ℕ) (q i o : Option ℕ) (io : Io)
    → Owes others (λ y. held y + parts_blocks q i o y) io
    → Owes others held (free_parts q i o io)
free_parts-Owes others held none i o io h = λ y. omega (arith, h y)
free_parts-Owes others held (some q) i o io h =
    let h1 =
      free_of-Owes others (λ y. held y + one_of (some q) y + one_of o y) i io
        (λ y. omega (arith, h y)) in
    let h2 = free_of-Owes others (λ y. held y + one_of (some q) y) o (free_of i io) h1 in
    free_of-Owes others held (some q) (free_of o (free_of i io)) h2

pub free_requests-Owes :
    (others held : ℕ → ℕ) (qs : List Request) (io : Io)
    → Owes others (λ y. held y + requests_blocks qs y) io
    → Owes others held (free_requests qs io)
unfolding free_requests
free_requests-Owes others held [] io h = λ y. omega (arith, h y)
free_requests-Owes others held (q ∷ qs) io h =
    free_requests-Owes others held qs (free_parts q.request q.mem_in q.mem_out io) (
      free_parts-Owes others (λ y. held y + requests_blocks qs y) q.request q.mem_in q.mem_out io
        (λ y. omega (arith, h y)))

-- The destructor gives back all that the device holds, and nothing else.
pub destroy-IsBalanced :
    (others : ℕ → ℕ) (pdo : ℕ) (u : Usb) (io : Io)
    → OwesUsb others (u, io)
    → IsBalanced others (destroy pdo u io).adapter.cache
unfolding destroy
destroy-IsBalanced others pdo u io h =
    let s = u.speaker in
    let m = u.mic in
    let last =
      u.objects.work_item ∷ u.objects.collection ∷ s.topology ∷ s.wave ∷ m.topology ∷ m.wave ∷ [] in
    let values = s.volume_values ∷ m.volume_values ∷ s.mute_values ∷ m.mute_values ∷ [] in
    let blocks =
      u.descriptor
      ∷ descriptor_block s.descriptor
      ∷ descriptor_block m.descriptor
      ∷ s.formats
      ∷ m.formats
      ∷ [] in
    let o6 = λ (y : ℕ). all_of last y in
    let o5 = λ (y : ℕ). o6 y + requests_blocks u.objects.requests y in
    let o4 = λ (y : ℕ). o5 y + all_of values y in
    let o3 = λ (y : ℕ). o4 y + all_of m.resources y + all_of s.resources y in
    let o2 = λ (y : ℕ). o3 y + all_of blocks y in
    let o1 = λ (y : ℕ). o2 y + own_blocks m.miniports y + own_blocks s.miniports y in
    let t1 = free_target pdo u.objects.target io in
    let i1 = free_of u.objects.link t1 in
    let d1 = delete_custom_endpoint_minipair s.miniports i1 in
    let i2 = delete_custom_endpoint_minipair m.miniports d1 in
    let i3 = free_list blocks i2 in
    let r3 = free_list s.resources i3 in
    let i4 = free_list m.resources r3 in
    let i5 = free_list values i4 in
    let i6 = free_requests u.objects.requests i5 in
    let h0 =
      free_target-Owes others (λ y. o1 y + one_of u.objects.link y) pdo u.objects.target io
        (λ y. omega (arith, h y)) in
    let h1 = free_of-Owes others o1 u.objects.link t1 h0 in
    let k1 =
      delete_custom_endpoint_minipair-Owes others (λ y. o2 y + own_blocks m.miniports y) s.miniports
        i1 h1 in
    let h2 = delete_custom_endpoint_minipair-Owes others o2 m.miniports d1 k1 in
    let h3 = free_list-Owes others o3 blocks i2 h2 in
    let k3 = free_list-Owes others (λ y. o4 y + all_of m.resources y) s.resources i3 h3 in
    let h4 = free_list-Owes others o4 m.resources r3 k3 in
    let h5 = free_list-Owes others o5 values i4 h4 in
    let h6 = free_requests-Owes others o6 u.objects.requests i5 h5 in
    let h7 = free_list-Owes others (λ y. 0) last i6 (λ y. omega (arith, h6 y)) in
    λ y. omega (arith, h7 y)
