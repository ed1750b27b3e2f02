-- ===== src/Power.antt =====
-- inferno_driver/common.cpp, power of CAdapterCommon: PowerChangeState and QueryPowerChangeState,
-- and NotifyEndpointPair, which walks the subdevices in the same way.
pub mod States
pub mod Relations
mod Tests
use inferno_windows.Prelude.{
  ℕ, ◌+◌, ◌-◌, Bool, true, false, Option, none, some, List, [], ◌∷◌, ◌++◌, ◌==◌, if◌then◌else◌,
}
use inferno_windows.Status.{NtStatus, success, nt_success}
use inferno_windows.Subdevices.{Subdevice}

-- DEVICE_POWER_STATE
pub data PowerState : Type 0 where
  unspecified d0 d1 d2 d3 maximum : PowerState

-- A call of an interface of a subdevice's miniport: of PowerChangeState, or of
-- NotifyEndpointPair for two pins.
pub data Notice : Type 0 where
  power : ℕ → PowerState → Notice
  pair : ℕ → ℕ → ℕ → Notice

-- m_PowerState, with the calls so far.
pub record Power : Type 0 where
  pub state : PowerState
  pub notices : List Notice

-- The state that is kept: `old` unless the new one is D0 to D3.
abbrev pub entered : PowerState → PowerState → PowerState
entered old unspecified = old
entered old d0 = d0
entered old d1 = d1
entered old d2 = d2
entered old d3 = d3
entered old maximum = old

abbrev pub power_notice : PowerState → Option ℕ → List Notice
power_notice new none = []
power_notice new (some x) = power x new ∷ []

unfoldable pub notify_power : PowerState → List Subdevice → List Notice → List Notice
notify_power new [] notices = notices
notify_power new (e ∷ es) notices = notify_power new es (notices ++ power_notice new e.power)

-- PowerChangeState. Where the new state is the old one, keeping it changes nothing.
unfoldable pub power_change_state : PowerState → List Subdevice → Power → Power
power_change_state new es s = record {
  state = entered s.state new;
  notices = notify_power new es s.notices;
}

abbrev pub ask : (ℕ → PowerState → NtStatus) → PowerState → Option ℕ → NtStatus → NtStatus
ask answer new none status = status
ask answer new (some x) status = answer x new

-- The loop of QueryPowerChangeState, entered with a status; `answer` is what a miniport's
-- QueryPowerChangeState says.
unfoldable pub query_all :
    (ℕ → PowerState → NtStatus) → PowerState → NtStatus → List Subdevice → NtStatus
query_all answer new status [] = status
query_all answer new status (e ∷ es) =
    let rest = query_all answer new (ask answer new e.power status) es in
    if nt_success status then rest else status

unfoldable pub query_power_change_state :
    (ℕ → PowerState → NtStatus) → PowerState → List Subdevice → NtStatus
query_power_change_state answer new es = query_all answer new success es

abbrev pub pair_notice : ℕ → ℕ → Option ℕ → List Notice
pair_notice render capture none = []
pair_notice render capture (some x) = pair x render capture ∷ []

-- NotifyEndpointPair
unfoldable pub notify_endpoint_pair : ℕ → ℕ → List Subdevice → Power → NtStatus × Power
notify_endpoint_pair render capture [] s = (success, s)
notify_endpoint_pair render capture (e ∷ es) s =
    notify_endpoint_pair render capture es
      (record s { notices = s.notices ++ pair_notice render capture e.change })
