-- ===== src/Usb/Recall.antt =====
-- SetVolume of UsbHsDevice, and a later GetVolume or GetMute.
use inferno_windows.Prelude.{ℕ, ◌≡◌, ◌≢◌, refl, ap, sym, ◌∙◌, arith, true, some, List, [], ◌∷◌}
use inferno_windows.Status.{nt_success}
use inferno_windows.Usb.Controls.{
  Below, DeviceType, speaker, mic, other, Members, get_device_volume, set_device_volume,
  get_device_mute, request_level,
}
use inferno_windows.Usb.Calls.{
  IsStore, Call, call_set_volume, all_elsewhere, ep_of, is_device, with_level, step, run,
  set_and_run, SameEps, step-SameEps, ep_of-SameEps, request_level-reads, send_level-stores,
  step-volume,
}

module _ (D : Below) where
  run-SameEps : (calls : List Call) (m : Members) (w : D.World) → SameEps D m (run D calls (m, w)).0
  run-SameEps [] m w = (refl, refl)
  run-SameEps (call ∷ calls) m w =
      let s = step D call (m, w) in
      let first = step-SameEps D call m w in
      let rest = run-SameEps calls s.0 s.1 in (rest.0 ∙ first.0, rest.1 ∙ first.1)

  module _ (v : IsStore D) where
    run-volume :
        (t : DeviceType) (c : ℕ) (calls : List Call) (m : Members) (w : D.World)
        → is_device t ≡ true
        → m.speaker_ep ≢ m.mic_ep
        → all_elsewhere t c calls ≡ true
        → v.volume (ep_of t m) c (run D calls (m, w)).1 ≡ v.volume (ep_of t m) c w
    run-volume t c [] m w d n h = refl
    run-volume t c (call ∷ calls) m w d n h =
        let s = step D call (m, w) in
        let same = step-SameEps D call m w in
        let ep : ep_of t s.0 ≡ ep_of t m = ep_of-SameEps D t m s.0 same in
        let n' : s.0.speaker_ep ≢ s.0.mic_ep = λ e. n (sym same.0 ∙ e ∙ same.1) in
        let later = run-volume t c calls s.0 s.1 d n' (ground (arith, h)) in
        ap (λ (e : ℕ). v.volume e c (run D calls s).1) (sym ep)
        ∙ later
        ∙ ap (λ (e : ℕ). v.volume e c s.1) ep
        ∙ step-volume D v t c call m w d n (ground (arith, h))

    -- What GetVolume gives and keeps, and GetMute for the microphone, from the volume below.
    get_device_volume-volume :
        (t : DeviceType) (c : ℕ) (m : Members) (w : D.World)
        → nt_success (get_device_volume D t c (m, w)).0 ≡ true
        → ((get_device_volume D t c (m, w)).1 ≡ some (v.volume (ep_of t m) c w))
          × ((get_device_volume D t c (m, w)).2 ≡ with_level t (v.volume (ep_of t m) c w) m)
    unfolding get_device_volume
    get_device_volume-volume speaker c m w h =
        let e = request_level-reads D v m.speaker_ep c w h in
        (ap (λ (x : ℕ). some x) e, rw h (ap (λ (x : ℕ). with_level speaker x m) e))
    get_device_volume-volume mic c m w h =
        let e = request_level-reads D v m.mic_ep c w h in
        (ap (λ (x : ℕ). some x) e, rw h (ap (λ (x : ℕ). with_level mic x m) e))
    get_device_volume-volume other c m w h = absurd cc

    set_device_volume-volume :
        (t : DeviceType) (c x : ℕ) (m : Members) (w : D.World)
        → nt_success (set_device_volume D t c x (m, w)).0 ≡ true
        → (is_device t ≡ true)
          × (v.volume (ep_of t m) c (step D (call_set_volume t c x) (m, w)).1 ≡ x)
    unfolding set_device_volume
    set_device_volume-volume speaker c x m w h = (refl, send_level-stores D v m.speaker_ep c x w h)
    set_device_volume-volume mic c x m w h = (refl, send_level-stores D v m.mic_ep c x w h)
    set_device_volume-volume other c x m w h = absurd cc

    -- GetMute of the microphone gives what GetVolume gives.
    get_device_mute-mic :
        (c : ℕ) (m : Members) (w : D.World)
        → some (get_device_mute D mic c (m, w)).0 ≡ (get_device_volume D mic c (m, w)).1
    unfolding get_device_mute get_device_volume request_level
    get_device_mute-mic c m w = ground arith

    set_and_run-volume :
        (t : DeviceType) (c x : ℕ) (calls : List Call) (m : Members) (w : D.World)
        → m.speaker_ep ≢ m.mic_ep
        → nt_success (set_device_volume D t c x (m, w)).0 ≡ true
        → all_elsewhere t c calls ≡ true
        → v.volume
            (ep_of t (set_and_run D t c x calls (m, w)).0)
            c
            (set_and_run D t c x calls (m, w)).1
          ≡ x
    set_and_run-volume t c x calls m w n stored elsewhere =
        let s = step D (call_set_volume t c x) (m, w) in
        let same = step-SameEps D (call_set_volume t c x) m w in
        let later = run-SameEps calls s.0 s.1 in
        let n' : s.0.speaker_ep ≢ s.0.mic_ep = λ e. n (sym same.0 ∙ e ∙ same.1) in
        let set_ = set_device_volume-volume t c x m w stored in
        ap (λ (e : ℕ). v.volume e c (run D calls s).1)
          (ep_of-SameEps D t s.0 (run D calls s).0 later)
        ∙ run-volume t c calls s.0 s.1 set_.0 n' elsewhere
        ∙ ap (λ (e : ℕ). v.volume e c s.1) (ep_of-SameEps D t m s.0 same)
        ∙ set_.1

    -- The driver below has a volume for each endpoint and channel, as its requests promise, and the
    -- speaker and the microphone are two endpoints. SetVolume of a channel succeeds, and behind it
    -- come any calls of the four functions that do not set the volume of that channel of that
    -- device. Then a GetVolume of it that succeeds gives the volume that was set and keeps it in the
    -- device's member alone; and a GetMute of the microphone gives what its GetVolume does, whatever
    -- mute was set.
    pub get_device_volume-set :
        (t : DeviceType) (c x : ℕ) (calls : List Call) (m : Members) (w : D.World)
        → m.speaker_ep ≢ m.mic_ep
        → nt_success (set_device_volume D t c x (m, w)).0 ≡ true
        → all_elsewhere t c calls ≡ true
        → nt_success (get_device_volume D t c (set_and_run D t c x calls (m, w))).0 ≡ true
        → let s = set_and_run D t c x calls (m, w) in
          ((get_device_volume D t c s).1 ≡ some x)
          × ((get_device_volume D t c s).2 ≡ with_level t x s.0)
          × (some (get_device_mute D mic c s).0 ≡ (get_device_volume D mic c s).1)
    get_device_volume-set t c x calls m w n stored elsewhere got =
        let s = set_and_run D t c x calls (m, w) in
        let e = set_and_run-volume t c x calls m w n stored elsewhere in
        let (value, members) = get_device_volume-volume t c s.0 s.1 got in
        (
          value ∙ ap (λ (y : ℕ). some y) e,
          members ∙ ap (λ (y : ℕ). with_level t y s.0) e,
          get_device_mute-mic c s.0 s.1,
        )
