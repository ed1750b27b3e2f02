-- ===== src/Usb/Leaks.antt =====
-- inferno_driver/UsbHsDevice.cpp, a device that reports two endpoints for output.
use inferno_windows.Prelude.{ℕ, ◌+◌, ◌^◌, ◌≤◌, ◌<◌, ◌≡◌, arith, true, some, List, ◌∷◌}
use inferno_windows.Status.{success, nt_success}
use inferno_windows.Subdevices.References.{IsBalanced, held}
use inferno_windows.Remote.{
  Io, Fetch, Ask, fetch, fetch_probed, fetch_sized, fetch_into, send_io_ctrl_synchronously,
  is_buffer_too_small, get_endpoint, get_descriptor, get_siop_of, free_of, endpoint_ask,
  descriptor_ask, siop_ask,
}
use inferno_windows.Remote.Levels.{Sizes}
use inferno_windows.Usb.{flow_out}
use inferno_windows.Usb.Start.{Usb, Endpoint, Found, StartAnswers, start_descriptor, start_hub}
use inferno_windows.Usb.Ends.{InitAnswers, init}
use inferno_windows.Usb.OwnedStart.{lost}
use inferno_windows.Usb.OwnedAll.{lost_in_start, none_found}
use inferno_windows.Usb.Life.{life, lost_in_life, life-lost}

-- A request in two steps that succeeds with the block `b`.
pub record Brings (f : Fetch) (b : ℕ) : Type 0 where
  pub create : nt_success f.create ≡ true
  pub probe : is_buffer_too_small f.probe ≡ true
  pub some_size : 0 < f.information
  pub narrow : f.information < 2 ^ 32
  pub memory : f.memory ≡ some b
  pub reuse : nt_success f.reuse ≡ true
  pub get : nt_success f.get ≡ true

fetch-some :
    (ask : Ask) (f : Fetch) (b : ℕ) (io : Io)
    → Brings f b
    → ((fetch ask f io).0 ≡ success) × ((fetch ask f io).1 ≡ some b)
unfolding fetch fetch_probed fetch_sized fetch_into send_io_ctrl_synchronously
fetch-some ask f b io h = (
  ground (arith, h.create, h.probe, h.some_size, h.narrow, h.memory, h.reuse, h.get),
  ground (arith, h.create, h.probe, h.some_size, h.narrow, h.memory, h.reuse, h.get),
)

-- The first of two endpoints for output is dropped.
lost-two :
    (e0 e1 : Endpoint) (es : List Endpoint) (i : ℕ) (f : Found) (io : Io) (b0 b1 : ℕ)
    → e0.flow ≡ flow_out
    → e1.flow ≡ flow_out
    → Brings e0.fetch b0
    → Brings e1.fetch b1
    → 1 ≤ lost (e0 ∷ e1 ∷ es) i f io b0
unfolding lost
lost-two e0 e1 es i f io b0 b1 p0 p1 a0 a1 =
    let r0 = get_endpoint e0.fetch io in
    ground (
      arith,
      p0,
      p1,
      fetch-some endpoint_ask e0.fetch b0 io a0,
      fetch-some endpoint_ask e1.fetch b1 r0.2 a1,
    )

lost_in_start-two :
    (z : Sizes) (a : StartAnswers) (t : Usb × Io) (e0 e1 : Endpoint) (es : List Endpoint)
    (b0 b1 bd bh : ℕ)
    → a.endpoints ≡ e0 ∷ e1 ∷ es
    → e0.flow ≡ flow_out
    → e1.flow ≡ flow_out
    → Brings a.descriptor bd
    → Brings a.behind_hub bh
    → Brings e0.fetch b0
    → Brings e1.fetch b1
    → 1 ≤ lost_in_start z a t b0
unfolding lost_in_start start_descriptor start_hub
lost_in_start-two z a (u, io) e0 e1 es b0 b1 bd bh p p0 p1 ad ah a0 a1 =
    let d = get_descriptor a.descriptor io in
    let h = get_siop_of z.siop a.behind_hub d.2 in
    let u1 = record u { descriptor = d.1 } in
    ground (
      arith,
      p,
      fetch-some descriptor_ask a.descriptor bd io ad,
      fetch-some (siop_ask z.siop) a.behind_hub bh d.2 ah,
      lost-two e0 e1 es 0 (none_found u1) (free_of h.1 h.2) b0 b1 p0 p1 a0 a1,
    )

-- Where Init succeeds and a device reports two endpoints for output before any other, and the
-- requests for the device's descriptor, for whether it is behind a hub and for the descriptors of
-- the two succeed, the block of the first one's descriptor has at least one use more in the end of
-- the device's life than it had from others and the cache.
pub life_two_speakers-leaks :
    (others : ℕ → ℕ) (z : Sizes) (i : InitAnswers) (a : StartAnswers) (io : Io) (e0 e1 : Endpoint)
    (es : List Endpoint) (b0 b1 bd bh : ℕ)
    → IsBalanced others io.adapter.cache
    → nt_success (init i io).0 ≡ true
    → a.endpoints ≡ e0 ∷ e1 ∷ es
    → e0.flow ≡ flow_out
    → e1.flow ≡ flow_out
    → Brings a.descriptor bd
    → Brings a.behind_hub bh
    → Brings e0.fetch b0
    → Brings e1.fetch b1
    → others b0 + held b0 (life z i a io).adapter.cache.entries + 1
      ≤ (life z i a io).adapter.cache.counts b0
unfolding lost_in_life
life_two_speakers-leaks others z i a io e0 e1 es b0 b1 bd bh h s p p0 p1 ad ah a0 a1 = ground (
  arith,
  s,
  life-lost others z i a io h b0,
  lost_in_start-two z a (init i io).1 e0 e1 es b0 b1 bd bh p p0 p1 ad ah a0 a1,
)
