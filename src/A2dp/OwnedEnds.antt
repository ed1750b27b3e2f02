-- ===== src/A2dp/OwnedEnds.antt =====
-- inferno_driver/A2dpHpDevice.cpp, the codec's capabilities, A2dpHpDevice::Stop and the destructor:
-- what they hold and what they give back.
use inferno_windows.Prelude.{
  ℕ, ◌+◌, ◌-◌, ◌^◌, ◌≡◌, refl, arith, false, ◌||◌, ◌==◌, ltb, ap, Bool-cases, inl, inr, Option,
  none, some, List, [], ◌∷◌, if_both,
}
use inferno_windows.Status.{nt_success}
use inferno_windows.Objects.{one, one_of}
use inferno_windows.Subdevices.References.{IsBalanced}
use inferno_windows.Endpoints.{Services, Minipair}
use inferno_windows.Remote.{
  Io, Fetch, get_siop, free_list, acquire, is_buffer_too_small, send_io_ctrl_synchronously,
}
use inferno_windows.Remote.Pairs.{delete_custom_endpoint_minipair}
use inferno_windows.Remote.Owned.{Owes, OwesBlock, all_of, free_of-Owes, free_list-Owes}
use inferno_windows.Remote.OwnedPairs.{own_blocks, kept_block, delete_custom_endpoint_minipair-Owes}
use inferno_windows.Usb.Ends.{remove_filters}
use inferno_windows.Usb.Destroy.{descriptor_block, free_requests}
use inferno_windows.Usb.OwnedStart.{requests_blocks}
use inferno_windows.Usb.OwnedEnds.{remove_filters-Owes, free_requests-Owes}
use inferno_windows.A2dp.{A2dp}
use inferno_windows.A2dp.Ends.{
  get_caps_into, get_caps_probed, get_codec_caps, update_codec_caps, configure_codec,
  configure_codecs, a2dp_stop, a2dp_destroy,
}
use inferno_windows.A2dp.OwnedStart.{a2dp_blocks, KeepsA2dp}

get_caps_into-OwesBlock :
    (others : ℕ → ℕ) (size : ℕ) (f : Fetch) (length : ℕ) (memory : Option ℕ) (io : Io)
    → IsBalanced others io.adapter.cache
    → OwesBlock others (get_caps_into size f length memory io)
unfolding get_caps_into send_io_ctrl_synchronously
get_caps_into-OwesBlock others size f length none io h = λ y. omega (arith, h y)
get_caps_into-OwesBlock others size f length (some b) io h =
    if_both (OwesBlock others) (nt_success f.reuse)
      (if_both (OwesBlock others) (nt_success f.get) (λ y. omega (arith, h y))
        (λ y. omega (arith, h y)))
      (λ y. omega (arith, h y))

get_caps_probed-OwesBlock :
    (others : ℕ → ℕ) (size : ℕ) (f : Fetch) (io : Io)
    → IsBalanced others io.adapter.cache
    → OwesBlock others (get_caps_probed size f io)
unfolding get_caps_probed send_io_ctrl_synchronously
get_caps_probed-OwesBlock others size f io h =
    let probed = (send_io_ctrl_synchronously f.probe get_siop size size 0 0 io).1 in
    if_both (OwesBlock others) (is_buffer_too_small f.probe)
      (if_both (OwesBlock others) ((f.information == 0) || ltb (2 ^ 32 - 1) f.information)
        (λ y. omega (arith, h y))
        (get_caps_into-OwesBlock others size f f.information f.memory probed h))
      (if_both (OwesBlock others) (nt_success f.probe)
        (get_caps_into-OwesBlock others size f 0 f.memory probed h) (λ y. omega (arith, h y)))

pub get_codec_caps-OwesBlock :
    (others : ℕ → ℕ) (size : ℕ) (f : Fetch) (io : Io)
    → IsBalanced others io.adapter.cache
    → OwesBlock others (get_codec_caps size f io)
unfolding get_codec_caps
get_codec_caps-OwesBlock others size f io h =
    let owed =
      get_caps_probed-OwesBlock (λ y. others y + one f.object y) size f (acquire f.object io)
        (λ y. omega (arith, h y)) in
    if_both (OwesBlock others) (nt_success f.create) (λ y. omega (arith, owed y))
      (λ y. omega (arith, h y))

get_caps_into-none :
    (size : ℕ) (f : Fetch) (length : ℕ) (memory : Option ℕ) (io : Io)
    → nt_success (get_caps_into size f length memory io).0 ≡ false
    → (get_caps_into size f length memory io).1 ≡ none
unfolding get_caps_into
get_caps_into-none size f length none io e = refl
get_caps_into-none size f length (some b) io e = ground arith

get_codec_caps-none :
    (size : ℕ) (f : Fetch) (io : Io)
    → nt_success (get_codec_caps size f io).0 ≡ false
    → (get_codec_caps size f io).1 ≡ none
unfolding get_codec_caps get_caps_probed
get_codec_caps-none size f io e =
    let probed =
      (send_io_ctrl_synchronously f.probe get_siop size size 0 0 (acquire f.object io)).1 in
    ground (
      arith,
      get_caps_into-none size f f.information f.memory probed,
      get_caps_into-none size f 0 f.memory probed,
    )

configure_codec-KeepsA2dp :
    (others : ℕ → ℕ) (size : ℕ) (f : Fetch) (t : A2dp × Io)
    → KeepsA2dp others t
    → KeepsA2dp others (configure_codec size f t)
unfolding configure_codec update_codec_caps
configure_codec-KeepsA2dp others size f (u, io) h =
    let kept = λ (y : ℕ). others y + kept_block u.speaker.miniports y in
    let r = get_codec_caps size f io in
    let owed =
      get_codec_caps-OwesBlock (λ y. kept y + a2dp_blocks u y) size f io
        (λ y. omega (arith, h y)) in
    let held = a2dp_blocks (record u { caps = r.1 }) in
    elim (Bool-cases (nt_success r.0)) [
      | inl s ↦ rw s (free_of-Owes kept held u.caps r.2 (λ y. omega (arith, owed y)))
      | inr s ↦ rw s (λ y.
          omega
            (arith, owed y, ap (λ (o : Option ℕ). one_of o y) (get_codec_caps-none size f io s)))
    ]

-- However often the codec is configured, the device holds the capabilities of the last time.
pub configure_codecs-KeepsA2dp :
    (others : ℕ → ℕ) (size : ℕ) (fs : List Fetch) (t : A2dp × Io)
    → KeepsA2dp others t
    → KeepsA2dp others (configure_codecs size fs t)
unfolding configure_codecs
configure_codecs-KeepsA2dp others size [] t h = h
configure_codecs-KeepsA2dp others size (f ∷ fs) t h =
    configure_codecs-KeepsA2dp others size fs (configure_codec size f t)
      (configure_codec-KeepsA2dp others size f t h)

pub a2dp_stop-KeepsA2dp :
    (others : ℕ → ℕ) (k : Services) (pair : Minipair) (t : A2dp × Io)
    → KeepsA2dp others t
    → KeepsA2dp others (a2dp_stop k pair t)
unfolding a2dp_stop
a2dp_stop-KeepsA2dp others k pair (u, io) h =
    let kept = λ (y : ℕ). others y + kept_block u.speaker.miniports y in
    let held = a2dp_blocks (a2dp_stop k pair (u, io)).0 in
    let i1 = remove_filters k pair u.speaker io in
    let h1 = remove_filters-Owes kept (a2dp_blocks u) k pair u.speaker io h in
    free_list-Owes kept held (u.speaker.topology ∷ u.speaker.wave ∷ []) i1
      (λ y. omega (arith, h1 y))

-- The destructor gives back all that the members hold of memory, and nothing else: the resources
-- for the transport, which this class never takes, are not there.
pub a2dp_destroy-IsBalanced :
    (others : ℕ → ℕ) (u : A2dp) (io : Io)
    → Owes others (a2dp_blocks u) io
    → ((y : ℕ) → all_of u.speaker.resources y ≡ 0)
    → IsBalanced others (a2dp_destroy u io).adapter.cache
unfolding a2dp_destroy
a2dp_destroy-IsBalanced others u io h e =
    let s = u.speaker in
    let first = u.objects.target ∷ u.objects.link ∷ [] in
    let blocks =
      u.descriptor
      ∷ descriptor_block s.descriptor
      ∷ s.formats
      ∷ s.volume_values
      ∷ s.mute_values
      ∷ u.caps
      ∷ [] in
    let last = u.objects.work_item ∷ u.objects.collection ∷ s.topology ∷ s.wave ∷ [] in
    let o4 = λ (y : ℕ). all_of last y in
    let o3 = λ (y : ℕ). o4 y + requests_blocks u.objects.requests y in
    let o2 = λ (y : ℕ). o3 y + all_of blocks y in
    let o1 = λ (y : ℕ). o2 y + own_blocks s.miniports y in
    let i1 = free_list first io in
    let i2 = delete_custom_endpoint_minipair s.miniports i1 in
    let i3 = free_list blocks i2 in
    let i4 = free_requests u.objects.requests i3 in
    let h1 = free_list-Owes others o1 first io (λ y. omega (arith, h y, e y)) in
    let h2 = delete_custom_endpoint_minipair-Owes others o2 s.miniports i1 h1 in
    let h3 = free_list-Owes others o3 blocks i2 h2 in
    let h4 = free_requests-Owes others o4 u.objects.requests i3 h3 in
    let h5 = free_list-Owes others (λ y. 0) last i4 (λ y. omega (arith, h4 y)) in
    λ y. omega (arith, h5 y)
