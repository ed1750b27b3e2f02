-- ===== src/Shm/Loops.antt =====
-- The two loops of InfernoShmWrite, one cell of the ring at a time.
use inferno_windows.Prelude.{
  ℕ, zero, suc, ◌+◌, ◌*◌, ◌%◌, ◌≤◌, ◌<◌, ◌^◌, ◌≡◌, ◌≢◌, ◌⊎◌, inl, inr, refl, ◌∙◌, arith, List,
  length, get_or, length-set, get_or-set_self, get_or-set_ne, dec_lt,
}
use native.Mathlib.Nat.{mul-le-mul_right}
use inferno_windows.Shm.{frame_slot, write_channels, write_frames}

pub length-write_channels :
    (samples : List ℕ) (ch slot f n c : ℕ) (ring : List ℕ)
    → length (write_channels samples ch slot f n c ring) ≡ length ring
unfolding write_channels
length-write_channels samples ch slot f zero c ring = refl
length-write_channels samples ch slot f (suc n) c ring =
    length-write_channels samples ch slot f n (c + 1) _ ∙ length-set ring _ _

-- The loop leaves every cell outside its range.
pub write_channels_other :
    (samples : List ℕ) (ch slot f n c : ℕ) (ring : List ℕ) (j : ℕ)
    → slot * ch + c + n ≤ 2 ^ 32
    → (j < slot * ch + c) ⊎ (slot * ch + c + n ≤ j)
    → get_or (write_channels samples ch slot f n c ring) j 0 ≡ get_or ring j 0
unfolding write_channels
write_channels_other samples ch slot f zero c ring j b h = refl
write_channels_other samples ch slot f (suc n) c ring j b h =
    write_channels_other samples ch slot f n (c + 1) _ j (omega arith) (omega arith)
    ∙ get_or-set_ne ring _ j _ 0 (omega arith)

-- A cell of the range takes the sample of its channel.
pub write_channels_hit :
    (samples : List ℕ) (ch slot f n c : ℕ) (ring : List ℕ) (i : ℕ)
    → slot * ch + c + n ≤ 2 ^ 32
    → slot * ch + c + n ≤ length ring
    → f * ch + c + n ≤ 2 ^ 32
    → c ≤ i
    → i < c + n
    → get_or (write_channels samples ch slot f n c ring) (slot * ch + i) 0
      ≡ get_or samples (f * ch + i) 0
unfolding write_channels
write_channels_hit samples ch slot f zero c ring i b l g lo hi = absurd (omega arith)
write_channels_hit samples ch slot f (suc n) c ring i b l g lo hi = elim (dec_lt c i) [
  | yes above ↦
      write_channels_hit samples ch slot f n (c + 1) _ i (omega arith)
        (omega (arith, length-set ring ((slot * ch + c) % 2 ^ 32) _)) (omega arith) (omega arith)
        (omega arith)
  | no here ↦
      let cell : (slot * ch + c) % 2 ^ 32 ≡ slot * ch + i = omega arith in
      let sample : (f * ch + c) % 2 ^ 32 ≡ f * ch + i = omega arith in
      write_channels_other samples ch slot f n (c + 1) _ (slot * ch + i) (omega arith) (omega arith)
      ∙ rw (cell, sample) (get_or-set_self ring (slot * ch + i) _ 0 (omega arith))
]

pub length-write_frames :
    (samples : List ℕ) (ch w n f : ℕ) (ring : List ℕ)
    → length (write_frames samples ch w n f ring) ≡ length ring
unfolding write_frames
length-write_frames samples ch w zero f ring = refl
length-write_frames samples ch w (suc n) f ring =
    length-write_frames samples ch w n (f + 1) _
    ∙ length-write_channels samples ch (frame_slot w f) f ch 0 ring

-- Frames in different slots have no cell in common.
slots_apart :
    (ch s t c : ℕ) → c < ch → s ≢ t → (s * ch + c < t * ch + 0) ⊎ (t * ch + 0 + ch ≤ s * ch + c)
slots_apart ch s t c h ne = elim (dec_lt s t) [
  | yes lt ↦ inl (omega (arith, mul-le-mul_right {m = suc s} {n = t} ch lt))
  | no ge ↦ inr (omega (arith, mul-le-mul_right {m = suc t} {n = s} ch (omega arith)))
]

-- A slot lies within the ring, whose cells have 32-bit indices.
slot_fits : (ch w f : ℕ) → 4096 * ch ≤ 2 ^ 32 → frame_slot w f * ch + 0 + ch ≤ 4096 * ch
slot_fits ch w f h =
    omega (arith, mul-le-mul_right {m = suc (frame_slot w f)} {n = 4096} ch (omega arith))

-- The frames of a write leave the slots that none of them falls into.
pub write_frames_other :
    (samples : List ℕ) (ch w n f : ℕ) (ring : List ℕ) (s c : ℕ)
    → 4096 * ch ≤ 2 ^ 32
    → c < ch
    → ((i : ℕ) → f ≤ i → i < f + n → s ≢ frame_slot w i)
    → get_or (write_frames samples ch w n f ring) (s * ch + c) 0 ≡ get_or ring (s * ch + c) 0
unfolding write_frames
write_frames_other samples ch w zero f ring s c b h apart = refl
write_frames_other samples ch w (suc n) f ring s c b h apart =
    write_frames_other samples ch w n (f + 1) _ s c b h
      (λ i lo hi. apart i (omega arith) (omega arith))
    ∙ write_channels_other samples ch (frame_slot w f) f ch 0 ring (s * ch + c)
        (omega (arith, slot_fits ch w f b))
        (slots_apart ch s (frame_slot w f) c h (apart f (omega arith) (omega arith)))

-- Frames less than a ring apart have different slots, also across the wrap of the index.
pub slots_differ : (w f i : ℕ) → f < i → i < f + 4096 → frame_slot w f ≢ frame_slot w i
slots_differ w f i lo hi = omega arith

-- Each of the last 4096 frames of a write stands in its slot, channel by channel.
pub write_frames_hit :
    (samples : List ℕ) (ch w n f : ℕ) (ring : List ℕ) (k c : ℕ)
    → 4096 * ch ≤ 2 ^ 32
    → 4096 * ch ≤ length ring
    → (f + n) * ch ≤ 2 ^ 32
    → c < ch
    → f ≤ k
    → k < f + n
    → f + n ≤ k + 4096
    → get_or (write_frames samples ch w n f ring) (frame_slot w k * ch + c) 0
      ≡ get_or samples (k * ch + c) 0
unfolding write_frames
write_frames_hit samples ch w zero f ring k c b l g h lo hi fresh = absurd (omega arith)
write_frames_hit samples ch w (suc n) f ring k c b l g h lo hi fresh = elim (dec_lt f k) [
  | yes later ↦
      write_frames_hit samples ch w n (f + 1) _ k c b
        (omega (arith, length-write_channels samples ch (frame_slot w f) f ch 0 ring)) (rw round g)
        h (omega arith) (omega arith) (omega arith)
  | no here ↦
      let same : k ≡ f = omega arith in
      rw same (
        write_frames_other samples ch w n (f + 1) _ (frame_slot w f) c b h
          (λ i above below. slots_differ w f i (omega arith) (omega arith))
        ∙ write_channels_hit samples ch (frame_slot w f) f ch 0 ring c
            (omega (arith, slot_fits ch w f b)) (omega (arith, slot_fits ch w f b))
            (omega (arith, mul-le-mul_right {m = suc f} {n = f + suc n} ch (omega arith)))
            (omega arith) (omega arith))
]
  where
    round : f + 1 + n ≡ f + suc n
    round = omega arith
