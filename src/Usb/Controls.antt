-- ===== src/Usb/Controls.antt =====
-- inferno_driver/UsbHsDevice.cpp, GetVolume, SetVolume, GetMute and SetMute, with the requests that
-- they send to the driver below.
use inferno_windows.Prelude.{ℕ, Bool, true, Option, none, some, if◌then◌else◌}
use inferno_windows.Status.{NtStatus, success, failure, nt_success}
use inferno_windows.Remote.{Code, set_volume, get_volume, set_mute, get_mute}

abbrev invalid_parameter : NtStatus
invalid_parameter = failure 0xC000000D

-- SIDEBANDAUDIO_VOLUME_PARAMS and SIDEBANDAUDIO_MUTE_PARAMS
pub record Params : Type 0 where
  pub ep_index : ℕ
  pub channel : ℕ
  pub value : ℕ
  pub immediate : Bool

-- The driver below: its state, and what it answers to a request with these parameters, a status and
-- the Value that is then in the buffer.
pub record Below : Type 1 where
  pub World : Type 0
  pub request : Code → Params → World → NtStatus × ℕ × World

-- eDeviceType
pub data DeviceType : Type 0 where
  speaker mic other : DeviceType

-- m_SpeakerEpIndex, m_MicEpIndex, m_SpeakerVolumeLevel and m_MicVolumeLevel
pub record Members : Type 0 where
  pub speaker_ep : ℕ
  pub mic_ep : ℕ
  pub speaker_level : ℕ
  pub mic_level : ℕ

module _ (D : Below) where
  -- GetUsbHsSpeakerVolume, GetUsbHsMicVolume, GetUsbHsSpeakerMute and GetUsbHsMicMute: the value is
  -- 0 where the request fails.
  unfoldable pub request_level : Code → ℕ → ℕ → D.World → NtStatus × ℕ × D.World
  request_level code ep channel w =
      let p : Params = record { ep_index = ep; channel = channel; value = 0; immediate = true } in
      let r = D.request code p w in if nt_success r.0 then (success, r.1, r.2) else (r.0, 0, r.2)

  -- SetUsbHsSpeakerVolume, SetUsbHsMicVolume, SetUsbHsSpeakerMute and SetUsbHsMicMute
  unfoldable pub send_level : Code → ℕ → ℕ → ℕ → D.World → NtStatus × D.World
  send_level code ep channel value w =
      let p : Params = record {
        ep_index = ep;
        channel = channel;
        value = value;
        immediate = true;
      } in
      let r = D.request code p w in if nt_success r.0 then (success, r.2) else (r.0, r.2)

  abbrev pub get_speaker_volume : Members → ℕ → D.World → NtStatus × ℕ × D.World
  get_speaker_volume m = request_level get_volume m.speaker_ep

  abbrev pub get_mic_volume : Members → ℕ → D.World → NtStatus × ℕ × D.World
  get_mic_volume m = request_level get_volume m.mic_ep

  abbrev pub get_speaker_mute : Members → ℕ → D.World → NtStatus × ℕ × D.World
  get_speaker_mute m = request_level get_mute m.speaker_ep

  -- GetMute does not call this one.
  abbrev pub get_mic_mute : Members → ℕ → D.World → NtStatus × ℕ × D.World
  get_mic_mute m = request_level get_mute m.mic_ep

  abbrev pub set_speaker_volume : Members → ℕ → ℕ → D.World → NtStatus × D.World
  set_speaker_volume m = send_level set_volume m.speaker_ep

  abbrev pub set_mic_volume : Members → ℕ → ℕ → D.World → NtStatus × D.World
  set_mic_volume m = send_level set_volume m.mic_ep

  abbrev pub set_speaker_mute : Members → ℕ → ℕ → D.World → NtStatus × D.World
  set_speaker_mute m = send_level set_mute m.speaker_ep

  abbrev pub set_mic_mute : Members → ℕ → ℕ → D.World → NtStatus × D.World
  set_mic_mute m = send_level set_mute m.mic_ep

  -- GetVolume: without a device of the type nothing is stored for the caller.
  unfoldable pub get_device_volume :
      DeviceType → ℕ → Members × D.World → NtStatus × Option ℕ × Members × D.World
  get_device_volume speaker channel (m, w) =
      let r = get_speaker_volume m channel w in
      (r.0, some r.1, (if nt_success r.0 then record m { speaker_level = r.1 } else m), r.2)
  get_device_volume mic channel (m, w) =
      let r = get_mic_volume m channel w in
      (r.0, some r.1, (if nt_success r.0 then record m { mic_level = r.1 } else m), r.2)
  get_device_volume other channel (m, w) = (invalid_parameter, none, m, w)

  -- SetVolume
  unfoldable pub set_device_volume :
      DeviceType → ℕ → ℕ → Members × D.World → NtStatus × Members × D.World
  set_device_volume speaker channel x (m, w) =
      let r = set_speaker_volume m channel x w in (r.0, m, r.1)
  set_device_volume mic channel x (m, w) = let r = set_mic_volume m channel x w in (r.0, m, r.1)
  set_device_volume other channel x (m, w) = (invalid_parameter, m, w)

  -- GetMute: for the microphone it calls GetUsbHsMicVolume.
  unfoldable pub get_device_mute : DeviceType → ℕ → Members × D.World → ℕ × Members × D.World
  get_device_mute speaker channel (m, w) =
      let r = get_speaker_mute m channel w in ((if nt_success r.0 then r.1 else 0), m, r.2)
  get_device_mute mic channel (m, w) =
      let r = get_mic_volume m channel w in ((if nt_success r.0 then r.1 else 0), m, r.2)
  get_device_mute other channel (m, w) = (0, m, w)

  -- SetMute
  unfoldable pub set_device_mute :
      DeviceType → ℕ → ℕ → Members × D.World → NtStatus × Members × D.World
  set_device_mute speaker channel x (m, w) = let r = set_speaker_mute m channel x w in (r.0, m, r.1)
  set_device_mute mic channel x (m, w) = let r = set_mic_mute m channel x w in (r.0, m, r.1)
  set_device_mute other channel x (m, w) = (invalid_parameter, m, w)
