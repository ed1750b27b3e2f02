-- ===== src/Headset.antt =====
-- inferno_driver/UsbHsDevice.cpp, A2dpHpDevice.cpp and BthhfpDevice.cpp, the streams of a sideband
-- device: how many are open and started, and what the device is told. The functions for the speaker
-- and the microphone, and those of the three classes where they are one text with other names, are
-- here once.
pub mod Gate
pub mod Counts
pub mod Users
pub mod Restart
pub mod Kinds
pub mod Notices
pub mod Updates
pub mod Formats
mod Tests
use inferno_windows.Prelude.{
  ℕ, ◌+◌, ◌-◌, ◌%◌, ◌^◌, Bool, true, false, List, [], ◌∷◌, ◌++◌, ◌==◌, if◌then◌else◌,
}
use inferno_windows.Status.{NtStatus, success, failure, nt_success}

-- STATUS_INVALID_DEVICE_STATE
abbrev pub invalid_device_state : NtStatus
invalid_device_state = failure 0xC0000184

-- The members for one direction. `watching` says that a request for the stream's status is out,
-- `resources` that there are transport resources. `opened` and `started` are what the device was
-- told: `true` for each time it opened or started the stream, `false` for each time it was told to
-- close or suspend it.
pub record Direction : Type 0 where
  pub opens : ℕ
  pub starts : ℕ
  pub status : NtStatus
  pub watching : Bool
  pub resources : Bool
  pub opened : List Bool
  pub started : List Bool

-- InterlockedIncrement and InterlockedDecrement on a LONG.
abbrev pub increment : ℕ → ℕ
increment n = (n + 1) % 2 ^ 32

abbrev pub decrement : ℕ → ℕ
decrement n = (n + 2 ^ 32 - 1) % 2 ^ 32

-- The statuses of the request to open the stream and of the request for its status.
pub record Opening : Type 0 where
  pub open_stream : NtStatus
  pub enable : NtStatus

unfoldable pub open_first : Opening → Direction → NtStatus × Direction
open_first a d =
    let failed = record d { opens = decrement d.opens; status = invalid_device_state } in
    let told = d.opened ++ (true ∷ []) in
    if nt_success a.open_stream
    then (if nt_success a.enable
        then (a.enable, record d { opened = told; status = success; watching = true })
        else (a.enable, record failed { opened = told ++ (false ∷ []) }))
    else (a.open_stream, failed)

-- SpeakerStreamOpen and MicStreamOpen of UsbHsDevice, StreamStart of BthHfpDevice.
unfoldable pub stream_open : Opening → Direction → NtStatus × Direction
stream_open a d =
    let counted = record d { opens = increment d.opens } in
    if increment d.opens == 1 then open_first a counted else (success, counted)

-- SpeakerStreamClose and MicStreamClose of UsbHsDevice, StreamSuspend of BthHfpDevice: the status is
-- that of the request to close.
unfoldable pub stream_close : NtStatus → Direction → NtStatus × Direction
stream_close closed d =
    let counted = record d { opens = decrement d.opens } in
    if decrement d.opens == 0
    then (
      closed,
      record counted {
        opened = d.opened ++ (false ∷ []);
        watching = false;
        status = invalid_device_state;
      },
    )
    else (success, counted)

-- The completion of the request for the stream's status: its own status, and the one it brings.
unfoldable pub stream_status_completion : NtStatus → NtStatus → Direction → Direction
stream_status_completion request brought d = record d {
  status = if nt_success request then brought else invalid_device_state;
  watching = false;
}

-- The statuses of SetTransportResources, of the request to start, and of GetTransportResources.
pub record Starting : Type 0 where
  pub prepare : NtStatus
  pub start : NtStatus
  pub get : NtStatus

unfoldable pub start_first : Starting → Direction → NtStatus × Direction
start_first a d =
    let failed = record d { starts = decrement d.starts } in
    let told = d.started ++ (true ∷ []) in
    if nt_success a.prepare
    then (if nt_success a.start
        then (if nt_success a.get
            then (a.get, record d { started = told; resources = true })
            else (a.get, record failed { started = told ++ (false ∷ []); resources = false }))
        else (a.start, failed))
    else (a.prepare, failed)

-- SpeakerStreamStart and MicStreamStart of UsbHsDevice.
unfoldable pub stream_start : Starting → Direction → NtStatus × Direction
stream_start a d =
    let counted = record d { starts = increment d.starts } in
    if increment d.starts == 1 then start_first a counted else (success, counted)

-- SpeakerStreamSuspend and MicStreamSuspend of UsbHsDevice.
unfoldable pub stream_suspend : NtStatus → Direction → NtStatus × Direction
stream_suspend suspended d =
    let counted = record d { starts = decrement d.starts } in
    if decrement d.starts == 0
    then (suspended, record counted { started = d.started ++ (false ∷ []); resources = false })
    else (success, counted)

-- SpeakerStreamOpen and SpeakerStreamClose of A2dpHpDevice, which also clear the resources.
unfoldable pub a2dp_stream_open : Opening → Direction → NtStatus × Direction
a2dp_stream_open a d =
    let r = stream_open a d in
    let cleared = record r.1 { resources = false } in if nt_success r.0 then r else (r.0, cleared)

unfoldable pub a2dp_stream_close : NtStatus → Direction → NtStatus × Direction
a2dp_stream_close closed d =
    let r = stream_close closed d in
    let cleared = record r.1 { resources = false } in
    if decrement d.opens == 0 then (r.0, cleared) else r

-- SpeakerStreamStart of A2dpHpDevice: a failure does not give the count back.
unfoldable pub a2dp_stream_start : NtStatus → Direction → NtStatus × Direction
a2dp_stream_start start d =
    let counted = record d { starts = increment d.starts } in
    let told = if nt_success start then d.started ++ (true ∷ []) else d.started in
    if increment d.starts == 1
    then (start, record counted { started = told })
    else (success, counted)

-- SpeakerStreamSuspend of A2dpHpDevice.
unfoldable pub a2dp_stream_suspend : NtStatus → Direction → NtStatus × Direction
a2dp_stream_suspend suspended d =
    let counted = record d { starts = decrement d.starts } in
    if decrement d.starts == 0
    then (suspended, record counted { started = d.started ++ (false ∷ []) })
    else (success, counted)
