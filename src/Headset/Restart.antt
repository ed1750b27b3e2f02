-- ===== src/Headset/Restart.antt =====
-- inferno_driver/A2dpHpDevice.cpp, SpeakerStreamStart when the device does not start.
use inferno_windows.Prelude.{
  ◌≡◌, ap, ◌∙◌, arith, Bool, true, false, List, [], ◌∷◌, ◌++◌, ◌==◌, if_true, if_false,
}
use inferno_windows.Status.{NtStatus, success, nt_success}
use inferno_windows.Headset.{Direction, increment, a2dp_stream_start}

a2dp_stream_start_failed :
    (start : NtStatus) (d : Direction)
    → d.starts ≡ 0
    → nt_success start ≡ false
    → a2dp_stream_start start d ≡ (start, record d { starts = increment d.starts })
unfolding a2dp_stream_start
a2dp_stream_start_failed start d h bad =
    if_true (increment d.starts == 1) _ _ (ground (arith, h))
    ∙ ap (λ (l : List Bool). (start, record d { starts = increment d.starts; started = l }))
        (if_false (nt_success start) (d.started ++ (true ∷ [])) d.started bad)

a2dp_stream_start_other :
    (start : NtStatus) (d : Direction)
    → d.starts ≡ 1
    → a2dp_stream_start start d ≡ (success, record d { starts = increment d.starts })
unfolding a2dp_stream_start
a2dp_stream_start_other start d h = if_false (increment d.starts == 1) _ _ (ground (arith, h))

-- When the first start of an A2DP stream fails, the next one succeeds, although the device was told
-- nothing more.
pub a2dp_stream_start_stuck :
    (first next : NtStatus) (d : Direction)
    → d.starts ≡ 0
    → nt_success first ≡ false
    → ((a2dp_stream_start first d).0 ≡ first)
      × ((a2dp_stream_start next (a2dp_stream_start first d).1).0 ≡ success)
      × ((a2dp_stream_start next (a2dp_stream_start first d).1).1.started ≡ d.started)
a2dp_stream_start_stuck first next d h bad =
    let failed = a2dp_stream_start_failed first d h bad in
    let other =
      ap (λ (r : NtStatus × Direction). a2dp_stream_start next r.1) failed
      ∙ a2dp_stream_start_other next (record d { starts = increment d.starts })
          (omega (arith, h)) in
    (
      ap (λ (r : NtStatus × Direction). r.0) failed,
      ap (λ (r : NtStatus × Direction). r.0) other,
      ap (λ (r : NtStatus × Direction). r.1.started) other,
    )
