-- ===== src/Shm/Ring.antt =====
-- What a reader of the ring finds after a write.
use inferno_windows.Prelude.{
  ℕ, ◌+◌, ◌-◌, ◌*◌, ◌%◌, ◌≤◌, ◌<◌, ◌^◌, ◌≡◌, ◌≢◌, arith, List, length, get_or,
}
use native.Mathlib.Nat.{zero-add}
use inferno_windows.Shm.{View, frame_slot, write_view}
use inferno_windows.Shm.Loops.{write_frames_other, write_frames_hit, length-write_frames}

-- The header agrees with the memory behind it, and all cells have 32-bit indices.
pub record IsView (v : View) : Type 0 where
  pub fits : length v.ring ≡ 4096 * v.channel_count
  pub narrow : 4096 * v.channel_count ≤ 2 ^ 32
  pub index : v.write_index < 2 ^ 32

-- The reader's side: channel `c` of the frame that was written `back` frames before the last.
abbrev pub sample_back : View → ℕ → ℕ → ℕ
sample_back v back c =
    get_or v.ring ((v.write_index + 2 ^ 32 - 1 - back) % 2 ^ 32 % 4096 * v.channel_count + c) 0

-- A write keeps the view well formed.
pub write_view-IsView :
    (samples : List ℕ) (n : ℕ) (v : View)
    → IsView v
    → IsView (write_view samples n v.channel_count v)
unfolding write_view
write_view-IsView samples n v k = record {
  fits =
      omega (arith, k.fits, length-write_frames samples v.channel_count v.write_index n 0 v.ring);
  narrow = k.narrow;
  index = omega arith;
}

abbrev last_index : ℕ → ℕ → ℕ
last_index w back = (w + 2 ^ 32 - 1 - back) % 2 ^ 32

back_slot :
    (w n back : ℕ)
    → back < n
    → back < 4096
    → last_index ((w + n) % 2 ^ 32) back % 4096 ≡ frame_slot w (n - 1 - back)
back_slot w n back lo hi = omega arith

back_slot_old :
    (w n back : ℕ)
    → n + back < 4096
    → last_index ((w + n) % 2 ^ 32) (n + back) % 4096 ≡ last_index w back % 4096
back_slot_old w n back hi = omega arith

back_slot_apart :
    (w n back i : ℕ) → n + back < 4096 → i < 0 + n → last_index w back % 4096 ≢ frame_slot w i
back_slot_apart w n back i hi h = omega arith

-- For a well-formed view and a write of at most 2 ^ 32 samples: counted back from the index that
-- the write leaves, a reader finds the frames of the write in their order, up to 4096 of them,
-- whether or not the 32-bit index wrapped on the way.
pub write_view-sample_back :
    (samples : List ℕ) (n : ℕ) (v : View) (back c : ℕ)
    → IsView v
    → n * v.channel_count ≤ 2 ^ 32
    → c < v.channel_count
    → back < n
    → back < 4096
    → sample_back (write_view samples n v.channel_count v) back c
      ≡ get_or samples ((n - 1 - back) * v.channel_count + c) 0
unfolding write_view
write_view-sample_back samples n v back c k g h lo hi = rw (back_slot v.write_index n back lo hi) (
    write_frames_hit samples v.channel_count v.write_index n 0 v.ring (n - 1 - back) c k.narrow
      (omega (arith, k.fits)) (rw zero-add g) h (omega arith) (omega arith) (omega arith))

-- The frames that the write does not push out of the ring keep their place in the reader's count.
pub write_view-sample_back_old :
    (samples : List ℕ) (n : ℕ) (v : View) (back c : ℕ)
    → IsView v
    → c < v.channel_count
    → n + back < 4096
    → sample_back (write_view samples n v.channel_count v) (n + back) c ≡ sample_back v back c
unfolding write_view
write_view-sample_back_old samples n v back c k h hi = rw (back_slot_old v.write_index n back hi) (
    write_frames_other samples v.channel_count v.write_index n 0 v.ring
      (last_index v.write_index back % 4096) c k.narrow h
      (λ i _ below. back_slot_apart v.write_index n back i hi below))
