-- ===== src/Properties/Support.antt =====
-- inferno_driver/kshelper.cpp: the bytes that the handlers of basic support put into the buffer of a
-- request.
use inferno_windows.Prelude.{ℕ, ◌+◌, ◌*◌, ◌^◌, ◌≤◌, ◌<◌, ◌≡◌, ap, arith, none, some}
use inferno_windows.Properties.{
  Sizes, Constants, Members, Reply, Request, empty, flags, description, basic_support_node,
  basic_support_volume, basic_support_mute, basic_support_peak_meter2,
}
use inferno_windows.Status.{NtStatus}

-- The bytes that a reply takes.
abbrev pub reply_bytes : Sizes → Reply → ℕ
reply_bytes z empty = 0
reply_bytes z (flags access) = 4
reply_bytes z (description access n kind none) = z.description
reply_bytes z (description access n kind (some m)) = z.description + z.header + z.stepping * m.count

-- The request after a handler has as its size the bytes of its reply, and they were in the buffer.
pub record IsContained (z : Sizes) (before : Request) (after : NtStatus × Request) : Type 0 where
  pub size : after.1.value_size ≡ reply_bytes z after.1.reply
  pub inside : after.1.value_size ≤ before.value_size

basic_support_node-IsContained :
    (z : Sizes) (whole short kind : ℕ) (m : Members) (r : Request)
    → r.reply ≡ empty
    → z.description + z.header + z.stepping * m.count < 2 ^ 32
    → IsContained z r (basic_support_node z whole short kind m r)
unfolding basic_support_node
basic_support_node-IsContained z whole short kind m r e s = record {
  size = ground (arith, ap (reply_bytes z) e);
  inside = ground arith;
}

-- Where the full description of the channels has a size that fits in 32 bits, the handlers of basic
-- support for volume, mute and peak meter leave as the size of a request, whose buffer is empty, the
-- bytes that they put into its buffer, which are at most those it had.
pub basic_support-IsContained :
    (z : Sizes) (k : Constants) (n : ℕ) (r : Request)
    → r.reply ≡ empty
    → z.description + z.header + z.stepping * n < 2 ^ 32
    → IsContained z r (basic_support_volume z k n r)
      × IsContained z r (basic_support_mute z k n r)
      × IsContained z r (basic_support_peak_meter2 z k n r)
unfolding basic_support_volume basic_support_mute basic_support_peak_meter2
basic_support-IsContained z k n r e s = (
  basic_support_node-IsContained z _ _ _ _ r e s,
  basic_support_node-IsContained z _ _ _ _ r e s,
  basic_support_node-IsContained z _ _ _ _ r e s,
)
