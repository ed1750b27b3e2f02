-- ===== src/Bth/OwnedStart.antt =====
-- inferno_driver/BthhfpDevice.cpp, BthHfpDevice::Start from its first step to its last: what the
-- device holds then.
use inferno_windows.Prelude.{ℕ, ◌+◌, arith, if_both}
use inferno_windows.Status.{NtStatus, nt_success}
use inferno_windows.Objects.{one_of}
use inferno_windows.Remote.{descriptor_ask, get_volume, get_codec_id, send_io_ctrl_synchronously}
use inferno_windows.Remote.Owned.{fetch-Owes}
use inferno_windows.Usb.{next}
use inferno_windows.Usb.Owned.{none-one_of, or_kept-one_of, next-keeps}
use inferno_windows.Usb.OwnedStart.{objects_blocks}
use inferno_windows.Bth.{
  BthSizes, BthStart, State, get_bth_volume_values, bth_start_capabilities, bth_start_descriptor,
  bth_start_values, bth_start_speaker_level, bth_start_mic_level, bth_start_volume,
  bth_start_connection, bth_start_codec, make_miniports, install_filters, on_speaker, on_mic,
  enable_notices, bth_start_all, bth_start,
}
use inferno_windows.Bth.Owned.{
  filters_blocks, bth_blocks, OwesBth, BeforeMic, BeforePorts, BeforeMicPair, BeforePairs,
  BeforeVolume, BeforeStart, Stage, get_bth_volume_values-OwesBlock, make_miniports-OwesFilters,
  install_filters-OwesFilters, get_value-Owes,
}

module _ (others : ℕ → ℕ) (z : BthSizes) (a : BthStart) where
  capabilities-Stage :
      (t : State)
      → Stage others BeforeStart t
      → Stage others BeforeStart (bth_start_capabilities z a t).1
  unfolding bth_start_capabilities send_io_ctrl_synchronously
  capabilities-Stage (u, io) h = h

  descriptor-Stage :
      (t : State)
      → Stage others BeforeStart t
      → Stage others BeforeVolume (bth_start_descriptor a t).1
  unfolding bth_start_descriptor
  descriptor-Stage (u, io) (h, b) = (
    (λ y. omega (
      arith,
      fetch-Owes (λ y. others y + bth_blocks u y) descriptor_ask a.descriptor io
          (λ y. omega (arith, h y)) y,
      none-one_of u.descriptor y b.0,
    )),
    b.1,
  )

  values-Stage :
      (t : State) → Stage others BeforeVolume t → Stage others BeforePairs (bth_start_values a t).1
  unfolding bth_start_values
  values-Stage (u, io) (h, b) = (
    (λ y. omega (
      arith,
      get_bth_volume_values-OwesBlock (λ y. others y + bth_blocks u y) a.values_size a.values
          a.memory io (λ y. omega (arith, h y)) y,
      or_kept-one_of (get_bth_volume_values a.values_size a.values a.memory io).1 u.volume_values y
          b.0,
    )),
    b.1,
  )

  speaker_level-Stage :
      (t : State)
      → Stage others BeforePairs t
      → Stage others BeforePairs (bth_start_speaker_level z a t).1
  unfolding bth_start_speaker_level
  speaker_level-Stage (u, io) (h, b) = (
    get_value-Owes others (bth_blocks u) get_volume z.immediate z.volume z.buffer a.speaker_volume
        io h,
    b,
  )

  mic_level-Stage :
      (t : State)
      → Stage others BeforePairs t
      → Stage others BeforePairs (bth_start_mic_level z a t).1
  unfolding bth_start_mic_level
  mic_level-Stage (u, io) (h, b) = (
    get_value-Owes others (bth_blocks u) get_volume z.immediate z.volume z.buffer a.mic_volume io h,
    b,
  )

  volume-Stage :
      (t : State)
      → Stage others BeforeVolume t
      → Stage others BeforePairs (bth_start_volume z a t).1
  unfolding bth_start_volume
  volume-Stage t h =
      let k = λ (t : State). next (bth_start_speaker_level z a t) (bth_start_mic_level z a) in
      if_both (λ (r : NtStatus × State). Stage others BeforePairs r.1) a.has_volume
        (next-keeps (Stage others BeforePairs) (Stage others BeforePairs) (bth_start_values a t) k
          (values-Stage t h) (λ s q. q)
          (λ t h.
            next-keeps (Stage others BeforePairs) (Stage others BeforePairs)
              (bth_start_speaker_level z a t) (bth_start_mic_level z a) (speaker_level-Stage t h)
              (λ s q. q) mic_level-Stage))
        (h.0, h.1.1)

  connection-Stage :
      (t : State)
      → Stage others BeforePairs t
      → Stage others BeforePairs (bth_start_connection z a t).1
  unfolding bth_start_connection send_io_ctrl_synchronously
  connection-Stage (u, io) h = h

  codec-Stage :
      (t : State) → Stage others BeforePairs t → Stage others BeforePairs (bth_start_codec z a t).1
  unfolding bth_start_codec
  codec-Stage (u, io) (h, b) =
      if_both (λ (r : NtStatus × State). Stage others BeforePairs r.1) u.connected
        (
          get_value-Owes others (bth_blocks u) get_codec_id z.version z.codec z.codec_buffer a.codec
              io h,
          b,
        )
        (h, b)

  speaker_pair-Stage :
      (t : State)
      → Stage others BeforePairs t
      → Stage others BeforeMicPair (on_speaker (make_miniports a.speaker t.0.codec) t).1
  unfolding make_miniports
  speaker_pair-Stage (u, io) (h, b) =
      let rest = λ (y : ℕ).
        others y
        + objects_blocks u.objects y
        + one_of u.descriptor y
        + one_of u.volume_values y
        + filters_blocks u.mic y in
      let owed =
        make_miniports-OwesFilters rest a.speaker u.codec (u.speaker, io) (λ y. omega (arith, h y))
          b.0 in
      ((λ y. omega (arith, owed y)), b.1)

  mic_pair-Stage :
      (t : State)
      → Stage others BeforeMicPair t
      → Stage others BeforePorts (on_mic (make_miniports a.mic t.0.codec) t).1
  unfolding make_miniports
  mic_pair-Stage (u, io) (h, b) =
      let rest = λ (y : ℕ).
        others y
        + objects_blocks u.objects y
        + one_of u.descriptor y
        + one_of u.volume_values y
        + filters_blocks u.speaker y in
      let owed =
        make_miniports-OwesFilters rest a.mic u.codec (u.mic, io) (λ y. omega (arith, h y)) b.0 in
      ((λ y. omega (arith, owed y)), b.1)

  speaker_filters-Stage :
      (t : State)
      → Stage others BeforePorts t
      → Stage others BeforeMic (on_speaker (install_filters a.speaker) t).1
  speaker_filters-Stage (u, io) (h, b) =
      let rest = λ (y : ℕ).
        others y
        + objects_blocks u.objects y
        + one_of u.descriptor y
        + one_of u.volume_values y
        + filters_blocks u.mic y in
      let owed =
        install_filters-OwesFilters rest a.speaker (u.speaker, io) (λ y. omega (arith, h y)) b.0 in
      ((λ y. omega (arith, owed y)), b.1)

  mic_filters-OwesBth :
      (t : State) → Stage others BeforeMic t → OwesBth others (on_mic (install_filters a.mic) t).1
  mic_filters-OwesBth (u, io) (h, b) =
      let rest = λ (y : ℕ).
        others y
        + objects_blocks u.objects y
        + one_of u.descriptor y
        + one_of u.volume_values y
        + filters_blocks u.speaker y in
      let owed = install_filters-OwesFilters rest a.mic (u.mic, io) (λ y. omega (arith, h y)) b in
      λ y. omega (arith, owed y)

  -- Start from the notification of the pair, from the filters, from the pairs and from the volume on.
  from_pair : State → NtStatus × State
  from_pair t = next (a.pair, t) (λ t. (enable_notices a.notices, t))

  from_filters : State → NtStatus × State
  from_filters t =
      next (on_speaker (install_filters a.speaker) t)
        (λ t. next (on_mic (install_filters a.mic) t) from_pair)

  from_pairs : State → NtStatus × State
  from_pairs t =
      next (on_speaker (make_miniports a.speaker t.0.codec) t)
        (λ t. next (on_mic (make_miniports a.mic t.0.codec) t) from_filters)

  from_connection : State → NtStatus × State
  from_connection t =
      next (bth_start_connection z a t) (λ t. next (bth_start_codec z a t) from_pairs)

  from_pair-OwesBth : (t : State) → OwesBth others t → OwesBth others (from_pair t).1
  unfolding from_pair
  from_pair-OwesBth t h =
      next-keeps (OwesBth others) (OwesBth others) (a.pair, t) (λ t. (enable_notices a.notices, t))
        h (λ s q. q) (λ s q. q)

  from_filters-OwesBth :
      (t : State) → Stage others BeforePorts t → OwesBth others (from_filters t).1
  unfolding from_filters
  from_filters-OwesBth t h =
      let k = λ (t : State). next (on_mic (install_filters a.mic) t) from_pair in
      next-keeps (Stage others BeforeMic) (OwesBth others)
        (on_speaker (install_filters a.speaker) t) k (speaker_filters-Stage t h) (λ s q. q.0)
        (λ t h.
          next-keeps (OwesBth others) (OwesBth others) (on_mic (install_filters a.mic) t) from_pair
            (mic_filters-OwesBth t h) (λ s q. q) from_pair-OwesBth)

  from_pairs-OwesBth : (t : State) → Stage others BeforePairs t → OwesBth others (from_pairs t).1
  unfolding from_pairs
  from_pairs-OwesBth t h =
      let k = λ (t : State). next (on_mic (make_miniports a.mic t.0.codec) t) from_filters in
      next-keeps (Stage others BeforeMicPair) (OwesBth others)
        (on_speaker (make_miniports a.speaker t.0.codec) t) k (speaker_pair-Stage t h) (λ s q. q.0)
        (λ t h.
          next-keeps (Stage others BeforePorts) (OwesBth others)
            (on_mic (make_miniports a.mic t.0.codec) t) from_filters (mic_pair-Stage t h)
            (λ s q. q.0) from_filters-OwesBth)

  from_connection-OwesBth :
      (t : State) → Stage others BeforePairs t → OwesBth others (from_connection t).1
  unfolding from_connection
  from_connection-OwesBth t h =
      let k = λ (t : State). next (bth_start_codec z a t) from_pairs in
      next-keeps (Stage others BeforePairs) (OwesBth others) (bth_start_connection z a t) k
        (connection-Stage t h) (λ s q. q.0)
        (λ t h.
          next-keeps (Stage others BeforePairs) (OwesBth others) (bth_start_codec z a t) from_pairs
            (codec-Stage t h) (λ s q. q.0) from_pairs-OwesBth)

  bth_start_all-OwesBth :
      (t : State) → Stage others BeforeStart t → OwesBth others (bth_start_all z a t).1
  unfolding bth_start_all from_connection from_pairs from_filters from_pair
  bth_start_all-OwesBth t h =
      let k2 = λ (t : State). next (bth_start_volume z a t) from_connection in
      let k1 = λ (t : State). next (bth_start_descriptor a t) k2 in
      next-keeps (Stage others BeforeStart) (OwesBth others) (bth_start_capabilities z a t) k1
        (capabilities-Stage t h) (λ s q. q.0)
        (λ t h.
          next-keeps (Stage others BeforeVolume) (OwesBth others) (bth_start_descriptor a t) k2
            (descriptor-Stage t h) (λ s q. q.0)
            (λ t h.
              next-keeps (Stage others BeforePairs) (OwesBth others) (bth_start_volume z a t)
                from_connection (volume-Stage t h) (λ s q. q.0) from_connection-OwesBth))

-- Whatever Start meets, failures included, each block, object and interface has in the end the uses
-- of others and one for each member of the device that holds it.
pub bth_start-OwesBth :
    (others : ℕ → ℕ) (z : BthSizes) (a : BthStart) (t : State)
    → Stage others BeforeStart t
    → OwesBth others (bth_start z a t)
unfolding bth_start
bth_start-OwesBth others z a t h =
    let owed = bth_start_all-OwesBth others z a t h in
    if_both (OwesBth others) (nt_success (bth_start_all z a t).0) owed (λ y. omega (arith, owed y))
