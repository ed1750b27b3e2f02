-- ===== src/Tone/Frames.antt =====
-- The generator between two calls, and what the making of a new frame keeps of it.
use inferno_windows.Prelude.{
  ℕ, zero, suc, ◌+◌, ◌*◌, ◌^◌, ◌≤◌, ◌<◌, ◌≡◌, refl, ap, sym, ◌∙◌, arith, subst, Option, Bool-cases,
  inl, inr, List, [], ◌∷◌, length, length-replicate, length-append, length-take, length-drop, ◌++◌,
  ◌==◌, take, drop, dword,
}
use inferno_windows.Tone.{
  Doubles, Tone, convert_to_uchar, convert_to_short, convert_to_long, frame_of, block_align,
  store_bytes, write_channel, write_channels, init_new_frame, advance_theta, zeros,
}

pub length-store_bytes :
    (o : ℕ) (c m : List ℕ) → o + length c ≤ length m → length (store_bytes o c m) ≡ length m
unfolding store_bytes
length-store_bytes o c m h = omega (
  arith,
  length-append {0} (take o m) (c ++ drop (o + length c) m),
  length-append {0} c (drop (o + length c) m),
  length-take {0} o m,
  length-drop {0} (o + length c) m,
)

-- Zeros that fit in the memory.
pub length-store_bytes-zeros :
    (o n : ℕ) (m : List ℕ) → o + n ≤ length m → length (store_bytes o (zeros n) m) ≡ length m
length-store_bytes-zeros o n m h =
    length-store_bytes o (zeros n) m (omega (arith, length-replicate {A = ℕ} n 0))

module _ (F : Doubles) where
  -- The memory of the partial frame is that of a frame, fewer bytes than a frame are left in it,
  -- and the channels are a word.
  pub record IsTone (t : Tone F) : Type 0 where
    pub frame : length (frame_of t.partial_frame) ≡ t.frame_size
    pub narrow : t.frame_size < 2 ^ 32
    pub less : t.partial_frame_bytes < t.frame_size
    pub channels : t.channel_count < 2 ^ 16

  -- The stores of `n` channels from channel `i` on lie in a memory of `size` bytes.
  abbrev Fits : ℕ → ℕ → ℕ → ℕ → Type 0
  Fits bits n i size =
      (bits ≡ 8 → n + i ≤ size)
      × (bits ≡ 16 → 2 * (n + i) ≤ size)
      × (bits ≡ 24 → 3 * (n + i) ≤ size)
      × (bits ≡ 32 → 4 * (n + i) ≤ size)

  length-write_channel :
      (bits : ℕ) (x : F.Double) (i n : ℕ) (f : List ℕ)
      → Fits bits (suc n) i (length f)
      → length (write_channel F bits x i f) ≡ length f
  unfolding write_channel convert_to_uchar convert_to_short convert_to_long
  length-write_channel bits x i n f (h8, h16, h24, h32) = ground (
    arith,
    h8,
    h16,
    h24,
    h32,
    length-store_bytes i (convert_to_uchar F x ∷ []) f,
    length-store_bytes (2 * i) (take 2 (dword (convert_to_short F x))) f,
    length-store_bytes 0 (drop 1 (dword (convert_to_long F x))) f,
    length-store_bytes (4 * i) (dword (convert_to_long F x)) f,
  )

  next-Fits :
      (bits n i size size' : ℕ)
      → size' ≡ size
      → Fits bits (suc n) i size
      → Fits bits n (i + 1) size'
  next-Fits bits n i size size' e (h8, h16, h24, h32) = (
    λ b. omega (arith, e, h8 b),
    λ b. omega (arith, e, h16 b),
    λ b. omega (arith, e, h24 b),
    λ b. omega (arith, e, h32 b),
  )

  length-write_channels :
      (bits : ℕ) (x : F.Double) (n i : ℕ) (f : List ℕ)
      → Fits bits n i (length f)
      → length (write_channels F bits x n i f) ≡ length f
  unfolding write_channels
  length-write_channels bits x zero i f fits = refl
  length-write_channels bits x (suc n) i f fits =
      let first = length-write_channel bits x i n f fits in
      length-write_channels bits x n (i + 1) _ (next-Fits bits n i (length f) _ first fits) ∙ first

  block_align-Fits :
      (channels bits size : ℕ)
      → channels < 2 ^ 16
      → size ≡ block_align F channels bits
      → Fits bits channels 0 size
  block_align-Fits channels bits size narrow e = (
    λ b.
        subst (λ (k : ℕ). size ≡ block_align F channels k → channels + 0 ≤ size) (sym b)
          (λ h. omega (arith, h, narrow)) e,
    λ b.
        subst (λ (k : ℕ). size ≡ block_align F channels k → 2 * (channels + 0) ≤ size) (sym b)
          (λ h. omega (arith, h, narrow)) e,
    λ b.
        subst (λ (k : ℕ). size ≡ block_align F channels k → 3 * (channels + 0) ≤ size) (sym b)
          (λ h. omega (arith, h, narrow)) e,
    λ b.
        subst (λ (k : ℕ). size ≡ block_align F channels k → 4 * (channels + 0) ≤ size) (sym b)
          (λ h. omega (arith, h, narrow)) e,
  )

  -- A new frame fills its memory, and moves the phase only.
  abbrev pub SameFrame : Tone F → Tone F → Type 0
  SameFrame t t' =
      (t'.partial_frame ≡ t.partial_frame)
      × (t'.frame_size ≡ t.frame_size)
      × (t'.partial_frame_bytes ≡ t.partial_frame_bytes)
      × (t'.channel_count ≡ t.channel_count)

  pub init_new_frame_lem :
      (n : ℕ) (f : List ℕ) (t : Tone F)
      → length f ≡ n
      → t.channel_count < 2 ^ 16
      → (length (init_new_frame F n f t).0 ≡ n) × SameFrame t (init_new_frame F n f t).1
  unfolding init_new_frame advance_theta
  init_new_frame_lem n f t e narrow = elim (Bool-cases (n == size)) [
    | inl same ↦ rw same (
      length-write_channels t.bits_per_sample x t.channel_count 0 f (
            block_align-Fits t.channel_count t.bits_per_sample (length f) narrow
              (e ∙ ground (arith, same)))
          ∙ e,
      (refl, refl, refl, refl),
    )
    | inr differs ↦
        rw differs (length-store_bytes-zeros 0 n f (omega (arith, e)) ∙ e, (refl, refl, refl, refl))
  ]
    where
      size : ℕ
      size = block_align F t.channel_count t.bits_per_sample

      x : F.Double
      x = F.add t.tone_dc_offset (F.mul t.tone_amplitude (F.sin t.theta))

  pub SameFrame-IsTone : (t t' : Tone F) → IsTone t → SameFrame t t' → IsTone t'
  SameFrame-IsTone t t' v same = record {
    frame = ap (λ (f : Option (List ℕ)). length (frame_of f)) same.0 ∙ v.frame ∙ sym same.1;
    narrow = omega (arith, same.1, v.narrow);
    less = omega (arith, same.1, same.2, v.less);
    channels = omega (arith, same.3, v.channels);
  }
