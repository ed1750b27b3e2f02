-- ===== src/Shm.antt =====
-- inferno_driver/shm.h and shm.cpp: the ring of audio frames that the driver shares with a reader
-- in user space. Words are 32-bit patterns; a sample is the bit pattern of an INT16.
pub mod Loops
pub mod Ring
pub mod Chunks
pub mod Life
mod Tests
use inferno_windows.Prelude.{
  ℕ, zero, suc, ◌+◌, ◌*◌, ◌%◌, ◌^◌, Bool, true, false, Option, none, some, List, get_or, set,
  if◌then◌else◌,
}
use inferno_windows.Status.{NtStatus, success, nt_success}

-- INFERNO_SHM_BUFFER_FRAMES, INFERNO_SHM_CHANNELS, INFERNO_SHM_HEADER_SIZE
abbrev pub buffer_frames : ℕ
buffer_frames = 4096

abbrev pub channels : ℕ
channels = 8

abbrev pub header_size : ℕ
header_size = 16

-- INFERNO_SHM_HEADER, and the INT16 cells that follow it in the view.
pub record View : Type 0 where
  pub write_index : ℕ
  pub channel_count : ℕ
  pub sample_rate : ℕ
  pub frames : ℕ
  pub ring : List ℕ

-- The globals g_ShmBase and g_ShmHandle.
pub record Shm : Type 0 where
  pub base : Option View
  pub handle : Bool

-- What the kernel answers to ZwCreateSection and to ZwMapViewOfSection, for a section of so many
-- bytes; a view comes with what stands in it.
pub record Sections : Type 0 where
  pub create : ℕ → NtStatus
  pub map_view : ℕ → NtStatus
  pub view : ℕ → View

-- The ULONG product is widened to SIZE_T by the sizeof.
abbrev pub section_size : ℕ → ℕ
section_size channel_count = header_size + (buffer_frames * channel_count) % 2 ^ 32 * 2

map_section : Sections → ℕ → ℕ → Shm → NtStatus × Shm
map_section k channel_count rate s =
    if nt_success (k.map_view (section_size channel_count))
    then (
      success,
      record s {
        base = some (record (k.view (section_size channel_count)) {
          write_index = 0;
          channel_count = channel_count;
          sample_rate = rate;
          frames = buffer_frames;
        });
        handle = true;
      },
    )
    else (k.map_view (section_size channel_count), record s { handle = false })

pub init : Sections → ℕ → ℕ → Shm → NtStatus × Shm
unfolding map_section
init k channel_count rate s =
    if nt_success (k.create (section_size channel_count))
    then map_section k channel_count rate s
    else (k.create (section_size channel_count), s)

-- The slot of frame `f` of a write that starts at the index `w`: ULONG arithmetic.
abbrev pub frame_slot : ℕ → ℕ → ℕ
frame_slot w f = (w + f) % 2 ^ 32 % buffer_frames

-- The loop over `c`, with `n` rounds left. A store outside the ring changes nothing here.
unfoldable pub write_channels : List ℕ → ℕ → ℕ → ℕ → ℕ → ℕ → List ℕ → List ℕ
write_channels samples ch slot f zero c ring = ring
write_channels samples ch slot f (suc n) c ring =
    write_channels samples ch slot f n (c + 1)
      (set ring ((slot * ch + c) % 2 ^ 32) (get_or samples ((f * ch + c) % 2 ^ 32) 0))

-- The loop over `f`, with `n` rounds left.
unfoldable pub write_frames : List ℕ → ℕ → ℕ → ℕ → ℕ → List ℕ → List ℕ
write_frames samples ch w zero f ring = ring
write_frames samples ch w (suc n) f ring =
    write_frames samples ch w n (f + 1) (write_channels samples ch (frame_slot w f) f ch 0 ring)

unfoldable pub write_view : List ℕ → ℕ → ℕ → View → View
write_view samples frame_count ch v = record v {
  ring = write_frames samples ch v.write_index frame_count 0 v.ring;
  write_index = (v.write_index + frame_count) % 2 ^ 32;
}

unfoldable pub write_base : List ℕ → ℕ → ℕ → Option View → Option View
unfolding write_view
write_base samples frame_count ch none = none
write_base samples frame_count ch (some v) = some (write_view samples frame_count ch v)

unfoldable pub write : List ℕ → ℕ → ℕ → Shm → Shm
unfolding write_base
write samples frame_count ch s = record s { base = write_base samples frame_count ch s.base }

-- A view that is unmapped and a handle that is closed are given back to the kernel.
unfoldable pub cleanup : Shm → Shm
cleanup s = record s { base = none; handle = false }
