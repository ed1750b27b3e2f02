-- ===== src/Usb/Calls.antt =====
-- The volume that the driver below UsbHsDevice keeps for an endpoint and a channel, and what each call
-- of GetVolume, SetVolume, GetMute and SetMute does to it.
use inferno_windows.Prelude.{
  ℕ, ◌≡◌, ◌≢◌, refl, arith, Bool, true, false, ◌&&◌, not, List, [], ◌∷◌, ◌==◌,
}
use inferno_windows.Status.{nt_success}
use inferno_windows.Remote.{Code, set_volume, get_volume, set_mute, get_mute}
use inferno_windows.Usb.Controls.{
  Params, Below, DeviceType, speaker, mic, other, Members, request_level, send_level,
  get_device_volume, set_device_volume, get_device_mute, set_device_mute,
}

abbrev pub sets_volume : Code → Bool
sets_volume set_volume = true
sets_volume _ = false

-- What IOCTL_SBAUD_SET_VOLUME and IOCTL_SBAUD_GET_VOLUME_STATUS_UPDATE promise: there is a volume for
-- each endpoint and channel; a request to get it at once that succeeds gives it; one to set it that
-- succeeds stores it; and nothing else changes it.
pub record IsStore (D : Below) : Type 0 where
  pub volume : ℕ → ℕ → D.World → ℕ
  pub reads :
      (p : Params) (w : D.World)
      → p.immediate ≡ true
      → nt_success (D.request get_volume p w).0 ≡ true
      → (D.request get_volume p w).1 ≡ volume p.ep_index p.channel w
  pub stores :
      (p : Params) (w : D.World)
      → nt_success (D.request set_volume p w).0 ≡ true
      → volume p.ep_index p.channel (D.request set_volume p w).2 ≡ p.value
  pub others :
      (p : Params) (w : D.World) (e c : ℕ)
      → ((e == p.ep_index) && (c == p.channel)) ≡ false
      → volume e c (D.request set_volume p w).2 ≡ volume e c w
  pub keeps :
      (code : Code) (p : Params) (w : D.World) (e c : ℕ)
      → sets_volume code ≡ false
      → volume e c (D.request code p w).2 ≡ volume e c w

-- A call of one of the four functions.
pub data Call : Type 0 where
  call_set_volume call_set_mute : DeviceType → ℕ → ℕ → Call
  call_get_volume call_get_mute : DeviceType → ℕ → Call

abbrev is_same_type : DeviceType → DeviceType → Bool
is_same_type speaker speaker = true
is_same_type mic mic = true
is_same_type _ _ = false

-- That a call does not set the volume of a channel of a device.
abbrev pub is_elsewhere : DeviceType → ℕ → Call → Bool
is_elsewhere t c (call_set_volume t' c' x) = not (is_same_type t t' && (c == c'))
is_elsewhere t c _ = true

abbrev pub all_elsewhere : DeviceType → ℕ → List Call → Bool
all_elsewhere t c [] = true
all_elsewhere t c (call ∷ calls) = is_elsewhere t c call && all_elsewhere t c calls

abbrev pub ep_of : DeviceType → Members → ℕ
ep_of mic m = m.mic_ep
ep_of _ m = m.speaker_ep

abbrev pub is_device : DeviceType → Bool
is_device other = false
is_device _ = true

-- The members with the level of a device replaced.
abbrev pub with_level : DeviceType → ℕ → Members → Members
with_level speaker x m = record m { speaker_level = x }
with_level mic x m = record m { mic_level = x }
with_level other x m = m

module _ (D : Below) where
  abbrev pub step : Call → Members × D.World → Members × D.World
  step (call_set_volume t c x) s = let r = set_device_volume D t c x s in (r.1, r.2)
  step (call_set_mute t c x) s = let r = set_device_mute D t c x s in (r.1, r.2)
  step (call_get_volume t c) s = let r = get_device_volume D t c s in (r.2, r.3)
  step (call_get_mute t c) s = let r = get_device_mute D t c s in (r.1, r.2)

  abbrev pub run : List Call → Members × D.World → Members × D.World
  run [] s = s
  run (call ∷ calls) s = run calls (step call s)

  -- What a SetVolume and some calls behind it leave.
  abbrev pub set_and_run : DeviceType → ℕ → ℕ → List Call → Members × D.World → Members × D.World
  set_and_run t c x calls s = run calls (step (call_set_volume t c x) s)

  -- The two members that name the endpoints stay.
  abbrev pub SameEps : Members → Members → Type 0
  SameEps m m' = (m'.speaker_ep ≡ m.speaker_ep) × (m'.mic_ep ≡ m.mic_ep)

  pub step-SameEps : (call : Call) (m : Members) (w : D.World) → SameEps m (step call (m, w)).0
  unfolding set_device_volume set_device_mute get_device_volume get_device_mute
  step-SameEps (call_set_volume speaker c x) m w = (refl, refl)
  step-SameEps (call_set_volume mic c x) m w = (refl, refl)
  step-SameEps (call_set_volume other c x) m w = (refl, refl)
  step-SameEps (call_set_mute speaker c x) m w = (refl, refl)
  step-SameEps (call_set_mute mic c x) m w = (refl, refl)
  step-SameEps (call_set_mute other c x) m w = (refl, refl)
  step-SameEps (call_get_volume speaker c) m w = ground arith
  step-SameEps (call_get_volume mic c) m w = ground arith
  step-SameEps (call_get_volume other c) m w = (refl, refl)
  step-SameEps (call_get_mute speaker c) m w = (refl, refl)
  step-SameEps (call_get_mute mic c) m w = (refl, refl)
  step-SameEps (call_get_mute other c) m w = (refl, refl)

  pub ep_of-SameEps : (t : DeviceType) (m m' : Members) → SameEps m m' → ep_of t m' ≡ ep_of t m
  ep_of-SameEps speaker m m' same = same.0
  ep_of-SameEps mic m m' same = same.1
  ep_of-SameEps other m m' same = same.0

  module _ (v : IsStore D) where
    request_level-volume :
        (code : Code) (ep channel : ℕ) (w : D.World) (e c : ℕ)
        → sets_volume code ≡ false
        → v.volume e c (request_level D code ep channel w).2 ≡ v.volume e c w
    unfolding request_level
    request_level-volume code ep channel w e c h =
        let p : Params = record { ep_index = ep; channel = channel; value = 0; immediate = true } in
        ground (arith, v.keeps code p w e c h)

    send_level-volume :
        (code : Code) (ep channel x : ℕ) (w : D.World) (e c : ℕ)
        → sets_volume code ≡ false
        → v.volume e c (send_level D code ep channel x w).1 ≡ v.volume e c w
    unfolding send_level
    send_level-volume code ep channel x w e c h =
        let p : Params = record { ep_index = ep; channel = channel; value = x; immediate = true } in
        ground (arith, v.keeps code p w e c h)

    send_level-others :
        (ep channel x : ℕ) (w : D.World) (e c : ℕ)
        → ((e == ep) && (c == channel)) ≡ false
        → v.volume e c (send_level D set_volume ep channel x w).1 ≡ v.volume e c w
    unfolding send_level
    send_level-others ep channel x w e c h =
        let p : Params = record { ep_index = ep; channel = channel; value = x; immediate = true } in
        ground (arith, v.others p w e c h)

    pub send_level-stores :
        (ep channel x : ℕ) (w : D.World)
        → nt_success (send_level D set_volume ep channel x w).0 ≡ true
        → v.volume ep channel (send_level D set_volume ep channel x w).1 ≡ x
    unfolding send_level
    send_level-stores ep channel x w h =
        let p : Params = record { ep_index = ep; channel = channel; value = x; immediate = true } in
        ground (arith, v.stores p w)

    pub request_level-reads :
        (ep channel : ℕ) (w : D.World)
        → nt_success (request_level D get_volume ep channel w).0 ≡ true
        → (request_level D get_volume ep channel w).1 ≡ v.volume ep channel w
    unfolding request_level
    request_level-reads ep channel w h =
        let p : Params = record { ep_index = ep; channel = channel; value = 0; immediate = true } in
        ground (arith, v.reads p w refl)

    pub step-volume :
        (t : DeviceType) (c : ℕ) (call : Call) (m : Members) (w : D.World)
        → is_device t ≡ true
        → m.speaker_ep ≢ m.mic_ep
        → is_elsewhere t c call ≡ true
        → v.volume (ep_of t m) c (step call (m, w)).1 ≡ v.volume (ep_of t m) c w
    unfolding set_device_volume set_device_mute get_device_volume get_device_mute
    step-volume other c call m w d n h = absurd cc
    step-volume speaker c (call_set_volume speaker c' x) m w d n h =
        send_level-others m.speaker_ep c' x w m.speaker_ep c (ground (arith, h))
    step-volume mic c (call_set_volume speaker c' x) m w d n h =
        send_level-others m.speaker_ep c' x w m.mic_ep c (ground (arith, n))
    step-volume speaker c (call_set_volume mic c' x) m w d n h =
        send_level-others m.mic_ep c' x w m.speaker_ep c (ground (arith, n))
    step-volume mic c (call_set_volume mic c' x) m w d n h =
        send_level-others m.mic_ep c' x w m.mic_ep c (ground (arith, h))
    step-volume t c (call_set_volume other c' x) m w d n h = refl
    step-volume t c (call_set_mute speaker c' x) m w d n h =
        send_level-volume set_mute m.speaker_ep c' x w (ep_of t m) c refl
    step-volume t c (call_set_mute mic c' x) m w d n h =
        send_level-volume set_mute m.mic_ep c' x w (ep_of t m) c refl
    step-volume t c (call_set_mute other c' x) m w d n h = refl
    step-volume t c (call_get_volume speaker c') m w d n h =
        request_level-volume get_volume m.speaker_ep c' w (ep_of t m) c refl
    step-volume t c (call_get_volume mic c') m w d n h =
        request_level-volume get_volume m.mic_ep c' w (ep_of t m) c refl
    step-volume t c (call_get_volume other c') m w d n h = refl
    step-volume t c (call_get_mute speaker c') m w d n h =
        request_level-volume get_mute m.speaker_ep c' w (ep_of t m) c refl
    step-volume t c (call_get_mute mic c') m w d n h =
        request_level-volume get_volume m.mic_ep c' w (ep_of t m) c refl
    step-volume t c (call_get_mute other c') m w d n h = refl
