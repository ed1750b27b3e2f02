-- ===== src/Headset/Updates.antt =====
-- What the work item for notifications makes of the updates.
use inferno_windows.Prelude.{
  ℕ, ◌≡◌, refl, ap, sym, ◌∙◌, subst, true, List, [], ◌∷◌, ◌++◌, ◌==◌, if◌then◌else◌, if_true,
  if_both, if_both2, append-nil, append_assoc,
}
use inferno_windows.Status.{nt_success}
use inferno_windows.Headset.Notices.{
  Control, volume, mute, other, Request, Notifier, exchange, update_volume, update_mute,
  update_control, resends, take_over, handle_requests, notification_status_work_item,
}

-- The volume of the speaker that a request brings, or the one that there is.
abbrev pub volume_from : Control → Request → ℕ → ℕ → ℕ
volume_from volume r speaker old = if r.endpoint == speaker then r.value else old
volume_from mute r speaker old = old
volume_from other r speaker old = old

abbrev pub newer : Request → ℕ → ℕ → ℕ
newer r speaker old = if nt_success r.status then volume_from r.control r speaker old else old

-- The last of them.
abbrev pub newest : List Request → ℕ → ℕ → ℕ
newest [] speaker old = old
newest (r ∷ rs) speaker old = newest rs speaker (newer r speaker old)

-- The requests that go out again.
abbrev pub going_out : List Request → List Request
going_out [] = []
going_out (r ∷ rs) = if resends r then r ∷ going_out rs else going_out rs

-- Each request that is to go out again can be sent.
abbrev pub CanBeSent : List Request → Type 0
CanBeSent [] = true ≡ true
CanBeSent (r ∷ rs) = (nt_success r.again ≡ true) × CanBeSent rs

-- Taking a request over leaves the requests alone, and sets the volume to the one it brings.
abbrev TakesOver : Notifier → Notifier → ℕ → Type 0
TakesOver s t new =
    (t.waiting ≡ s.waiting)
    × (t.sent ≡ s.sent)
    × (t.speaker_endpoint ≡ s.speaker_endpoint)
    × (t.speaker_volume.current ≡ new)

update_control-TakesOver :
    (c : Control) (r : Request) (s : Notifier)
    → TakesOver s
        (update_control c r s)
        (volume_from c r s.speaker_endpoint s.speaker_volume.current)
unfolding update_control update_volume update_mute exchange
update_control-TakesOver volume r s =
    if_both2 (TakesOver s) (r.endpoint == s.speaker_endpoint) (refl, refl, refl, refl)
      (if_both (λ (t : Notifier). TakesOver s t s.speaker_volume.current)
        (r.endpoint == s.mic_endpoint) (refl, refl, refl, refl) (refl, refl, refl, refl))
update_control-TakesOver mute r s =
    if_both (λ (t : Notifier). TakesOver s t s.speaker_volume.current)
      (r.endpoint == s.speaker_endpoint) (refl, refl, refl, refl)
      (if_both (λ (t : Notifier). TakesOver s t s.speaker_volume.current)
        (r.endpoint == s.mic_endpoint) (refl, refl, refl, refl) (refl, refl, refl, refl))
update_control-TakesOver other r s = (refl, refl, refl, refl)

take_over-TakesOver :
    (r : Request) (s : Notifier)
    → TakesOver s (take_over r s) (newer r s.speaker_endpoint s.speaker_volume.current)
unfolding take_over
take_over-TakesOver r s =
    if_both2 (TakesOver s) (nt_success r.status) (update_control-TakesOver r.control r s)
      (refl, refl, refl, refl)

-- What is waiting is handled: `out` goes out again, and the volume is `new`.
abbrev IsHandled : Notifier → ℕ → Notifier → List Request → Type 0
IsHandled s new t out =
    (t.waiting ≡ []) × (t.sent ≡ s.sent ++ out) × (t.speaker_volume.current ≡ new)

-- Taking one over first.
taken_over-IsHandled :
    (r : Request) (rs : List Request) (s : Notifier) (sent : List Request) (t : Notifier)
    → let next = take_over r (record s { waiting = rs }) in
      IsHandled
        (record next { sent = next.sent ++ sent })
        (newest rs next.speaker_endpoint next.speaker_volume.current)
        t
        (going_out rs)
      → IsHandled s
          (newest rs s.speaker_endpoint (newer r s.speaker_endpoint s.speaker_volume.current))
          t
          (sent ++ going_out rs)
taken_over-IsHandled r rs s sent t (none_left, out, new) =
    let next = take_over r (record s { waiting = rs }) in
    let (w, o, e, v) = take_over-TakesOver r (record s { waiting = rs }) in
    (
      none_left,
      out
          ∙ append_assoc next.sent sent (going_out rs)
          ∙ ap (λ (x : List Request). x ++ (sent ++ going_out rs)) o,
      new
          ∙ ap (λ (x : ℕ). newest rs x next.speaker_volume.current) e
          ∙ ap (λ (x : ℕ). newest rs s.speaker_endpoint x) v,
    )

handle_requests-IsHandled :
    (rs : List Request) (s : Notifier)
    → CanBeSent rs
    → s.waiting ≡ rs
    → IsHandled s
        (newest rs s.speaker_endpoint s.speaker_volume.current)
        (handle_requests rs s)
        (going_out rs)
unfolding handle_requests
handle_requests-IsHandled [] s can w = (w, sym (append-nil s.sent), refl)
handle_requests-IsHandled (r ∷ rs) s (again, can) w =
    let next = take_over r (record s { waiting = rs }) in
    let kept = (take_over-TakesOver r (record s { waiting = rs })).0 in
    let new = newest rs s.speaker_endpoint (newer r s.speaker_endpoint s.speaker_volume.current) in
    if_both2 (IsHandled s new) (resends r)
      (subst (λ (t : Notifier). IsHandled s new t (r ∷ going_out rs))
        (sym (if_true (nt_success r.again) _ _ again))
        (taken_over-IsHandled r rs s (r ∷ [])
          (handle_requests rs (record next { sent = next.sent ++ (r ∷ []) }))
          (handle_requests-IsHandled rs (record next { sent = next.sent ++ (r ∷ []) }) can kept)))
      (taken_over-IsHandled r rs s [] (handle_requests rs next) (
        subst
          (λ (x : List Request).
            IsHandled (record next { sent = x })
              (newest rs next.speaker_endpoint next.speaker_volume.current)
              (handle_requests rs next) (going_out rs))
          (sym (append-nil next.sent)) (handle_requests-IsHandled rs next can kept)))

-- Where each request can be sent again, the work item leaves none waiting, sends those again that it
-- is to, in their order, and has the last volume of the speaker that they brought, or the old one if
-- they brought none.
pub notification_status_work_item_lem :
    (s : Notifier)
    → CanBeSent s.waiting
    → let t = notification_status_work_item s in
      (t.waiting ≡ [])
      × (t.sent ≡ s.sent ++ going_out s.waiting)
      × (t.speaker_volume.current ≡ newest s.waiting s.speaker_endpoint s.speaker_volume.current)
unfolding notification_status_work_item
notification_status_work_item_lem s can = handle_requests-IsHandled s.waiting s can refl
