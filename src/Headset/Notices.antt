-- ===== src/Headset/Notices.antt =====
-- inferno_driver/UsbHsDevice.cpp, the notifications of a sideband device: the completion of a request
-- for an update, and the work item that takes the updates over.
use inferno_windows.Prelude.{
  ℕ, ◌+◌, ◌%◌, ◌^◌, Bool, true, false, not, ◌&&◌, List, [], ◌∷◌, ◌++◌, ltb, ◌==◌, if◌then◌else◌,
}
use inferno_windows.Status.{NtStatus, nt_success}

-- The control code of a request: IOCTL_SBAUD_GET_VOLUME_STATUS_UPDATE,
-- IOCTL_SBAUD_GET_MUTE_STATUS_UPDATE, or another one.
pub data Control : Type 0 where
  volume mute other : Control

-- A request that was completed, with what its context has: the endpoint and the value, and the
-- errors so far. `again` is the status that the request meets when it is reused and sent again.
pub record Request : Type 0 where
  pub status : NtStatus
  pub control : Control
  pub endpoint : ℕ
  pub value : ℕ
  pub errors : ℕ
  pub again : NtStatus

-- m_SpeakerVolumeLevel and its like; `handled` says that there is a callback, and `calls` counts its
-- calls.
pub record Value : Type 0 where
  pub current : ℕ
  pub handled : Bool
  pub calls : ℕ

-- m_SpeakerEpIndex, m_MicEpIndex, the four values, and m_ReqCollection; `sent` are the requests that
-- are out again.
pub record Notifier : Type 0 where
  pub speaker_endpoint : ℕ
  pub mic_endpoint : ℕ
  pub speaker_volume : Value
  pub mic_volume : Value
  pub speaker_mute : Value
  pub mic_mute : Value
  pub waiting : List Request
  pub sent : List Request

-- USB_SIDEBAND_NOTIFICATION_MAX_ERROR_COUNT
abbrev pub max_error_count : ℕ
max_error_count = 5

-- EvtUsbHsDeviceNotificationStatusCompletion: `cancelled` says that the status is STATUS_CANCELLED,
-- and `added` is the status of WdfCollectionAdd.
unfoldable pub notification_status_completion : Bool → NtStatus → Request → Notifier → Notifier
notification_status_completion cancelled added r s =
    let errors = if nt_success r.status then 0 else (r.errors + 1) % 2 ^ 32 in
    let taken = record s { waiting = s.waiting ++ (record r { errors = errors } ∷ []) } in
    if cancelled
    then s
    else (if not (nt_success r.status) && ltb max_error_count errors
        then s
        else (if nt_success added then taken else s))

-- InterlockedExchange, with the call of the callback where the value changes.
unfoldable pub exchange : ℕ → Value → Value
exchange new v = record v {
  current = new;
  calls = if new == v.current then v.calls else (if v.handled then v.calls + 1 else v.calls);
}

unfoldable pub update_volume : Request → Notifier → Notifier
update_volume r s =
    if r.endpoint == s.speaker_endpoint
    then record s { speaker_volume = exchange r.value s.speaker_volume }
    else (if r.endpoint == s.mic_endpoint
        then record s { mic_volume = exchange r.value s.mic_volume }
        else s)

unfoldable pub update_mute : Request → Notifier → Notifier
update_mute r s =
    if r.endpoint == s.speaker_endpoint
    then record s { speaker_mute = exchange r.value s.speaker_mute }
    else (if r.endpoint == s.mic_endpoint
        then record s { mic_mute = exchange r.value s.mic_mute }
        else s)

-- The switch on the control code.
unfoldable pub update_control : Control → Request → Notifier → Notifier
update_control volume r s = update_volume r s
update_control mute r s = update_mute r s
update_control other r s = s

abbrev pub is_known : Control → Bool
is_known volume = true
is_known mute = true
is_known other = false

-- Another control code is not sent again, if the request succeeded.
abbrev pub resends : Request → Bool
resends r = if nt_success r.status then is_known r.control else true

unfoldable pub take_over : Request → Notifier → Notifier
take_over r s = if nt_success r.status then update_control r.control r s else s

-- The loop, on the requests that wait: it ends early where one cannot be sent again.
unfoldable pub handle_requests : List Request → Notifier → Notifier
handle_requests [] s = s
handle_requests (r ∷ rs) s =
    let next = take_over r (record s { waiting = rs }) in
    let out = record next { sent = next.sent ++ (r ∷ []) } in
    let rest_out = handle_requests rs out in
    let rest = handle_requests rs next in
    if resends r then (if nt_success r.again then rest_out else next) else rest

-- EvtUsbHsDeviceNotificationStatusWorkItem
unfoldable pub notification_status_work_item : Notifier → Notifier
notification_status_work_item s = handle_requests s.waiting s
