-- ===== src/Tone/Buffers.antt =====
-- What GenerateSine keeps of the generator and of the buffer.
use inferno_windows.Prelude.{
  ℕ, zero, suc, ◌+◌, ◌-◌, ◌*◌, ◌/◌, ◌%◌, ◌^◌, ◌≤◌, ◌<◌, ◌≡◌, refl, sym, ◌∙◌, arith, subst, Bool,
  Bool-cases, inl, inr, List, length, slice, take, length-take, length-slice, ◌||◌, ltb, ◌==◌,
  sub32, if◌then◌else◌,
}
use native.Mathlib.Nat.{mod-lt, div-add-mod'}
use inferno_windows.Status.{NtStatus, nt_success}
use inferno_windows.Tone.{
  Doubles, Tone, copy_bytes, frame_of, init_new_frame, residual, whole_frames, partial, fill,
  generate_sine, zeros, store_bytes,
}
use inferno_windows.Tone.Frames.{
  IsTone, SameFrame-IsTone, init_new_frame_lem, length-store_bytes, length-store_bytes-zeros,
}

module _ (F : Doubles) where
  -- A well-formed generator and a buffer of `size` bytes, with `left` bytes left of a frame of
  -- `frame` bytes.
  record Keeps (size frame left : ℕ) (u : Tone F × List ℕ) : Type 0 where
    tone : IsTone F u.0
    buffer : length u.1 ≡ size
    same : u.0.frame_size ≡ frame
    rest : u.0.partial_frame_bytes ≡ left

  residual-Keeps :
      (n : ℕ) (b : List ℕ) (t : Tone F)
      → IsTone F t
      → n ≤ length b
      → Keeps (length b) t.frame_size 0 (residual F n (t, b))
  unfolding residual
  residual-Keeps n b t v room =
      let o : ℕ = sub32 t.frame_size t.partial_frame_bytes in
      let m : ℕ = copy_bytes F n t in
      let f = frame_of t.partial_frame in
      elim (Bool-cases (ltb 0 t.partial_frame_bytes)) [
        | inl some_left ↦ rw some_left (record {
          tone = record {
            frame =
                length-store_bytes-zeros o m f (omega (arith, v.frame, v.less, v.narrow)) ∙ v.frame;
            narrow = v.narrow;
            less = omega (arith, v.less);
            channels = v.channels;
          };
          buffer =
              length-store_bytes 0 (slice o m f) b
                (omega (arith, room, length-slice {A = ℕ} o m f));
          same = refl;
          rest = refl;
        })
        | inr none_left ↦
            rw none_left
              (record { tone = v; buffer = refl; same = refl; rest = ground (arith, none_left) })
      ]

  whole_frames-Keeps :
      (n o size frame : ℕ) (b : List ℕ) (t : Tone F)
      → Keeps size frame 0 (t, b)
      → o + n * frame ≤ size
      → Keeps size frame 0 (whole_frames F n o (t, b))
  unfolding whole_frames
  whole_frames-Keeps zero o size frame b t k room = k
  whole_frames-Keeps (suc n) o size frame b t k room =
      let old : List ℕ = slice o t.frame_size b in
      let next = init_new_frame F t.frame_size old t in
      let long : length old ≡ t.frame_size =
        omega (arith, room, k.same, k.buffer, length-slice {A = ℕ} o t.frame_size b) in
      let (l, same) = init_new_frame_lem F t.frame_size old t long k.tone.channels in
      whole_frames-Keeps n (o + t.frame_size) size frame (store_bytes o next.0 b) next.1
        (record {
          tone = SameFrame-IsTone F t next.1 k.tone same;
          buffer =
              length-store_bytes o next.0 b (omega (arith, l, room, k.same, k.buffer)) ∙ k.buffer;
          same = same.1 ∙ k.same;
          rest = same.2 ∙ k.rest;
        })
        (omega (arith, room, k.same))

  partial-Keeps :
      (n o size frame : ℕ) (b : List ℕ) (t : Tone F)
      → Keeps size frame 0 (t, b)
      → 0 < n
      → n < frame
      → o + n ≤ size
      → Keeps size frame (frame - n) (partial F n o (t, b))
  unfolding partial
  partial-Keeps n o size frame b t k some_left less room =
      let old : List ℕ = frame_of t.partial_frame in
      let next = init_new_frame F t.frame_size old t in
      let (l, same) = init_new_frame_lem F t.frame_size old t k.tone.frame k.tone.channels in
      let e : next.1.frame_size ≡ frame = same.1 ∙ k.same in
      let bound : frame < 2 ^ 32 = omega (arith, k.tone.narrow, k.same) in
      record {
        tone = record {
          frame =
              length-store_bytes-zeros 0 n next.0 (omega (arith, l, k.same, less)) ∙ l ∙ sym same.1;
          narrow = omega (arith, e, bound);
          less = omega (arith, e, bound, some_left, less);
          channels = omega (arith, same.3, k.tone.channels);
        };
        buffer =
            length-store_bytes o (take n next.0) b
              (omega (arith, room, k.buffer, length-take {0} n next.0))
            ∙ k.buffer;
        same = e;
        rest = omega (arith, e, bound, some_left, less);
      }

  -- What is missing of the last frame that `n` bytes begin.
  abbrev missing : ℕ → ℕ → ℕ
  missing n frame = if n % frame == 0 then 0 else frame - n % frame

  fill-Keeps :
      (n : ℕ) (b : List ℕ) (t : Tone F)
      → IsTone F t
      → n ≤ length b
      → Keeps
          (length b)
          t.frame_size
          (missing (n - t.partial_frame_bytes) t.frame_size)
          (fill F n (t, b))
  unfolding fill
  fill-Keeps n b t v room =
      subst (λ (r : ℕ). Keeps (length b) size (missing r size) (fill F n (t, b))) same_rest
        (elim (Bool-cases (left == 0)) [
          | inl none_left ↦ rw none_left done
          | inr some_left ↦ rw some_left (
              partial-Keeps left (m + frames * size) (length b) size done_pair.1 done_pair.0 done
                (ground (arith, some_left)) below (omega (arith, room, parts)))
        ])
    where
      m : ℕ
      m = copy_bytes F n t

      size : ℕ
      size = t.frame_size

      same_rest : n - m ≡ n - t.partial_frame_bytes
      same_rest = omega arith

      frames : ℕ
      frames = (n - m) / size

      left : ℕ
      left = (n - m) % size

      parts : frames * size + left ≡ n - m
      parts = div-add-mod' (n - m) size

      below : left < size
      below = mod-lt (n - m) (omega (arith, v.less))

      r : Tone F × List ℕ
      r = residual F n (t, b)

      done_pair : Tone F × List ℕ
      done_pair = whole_frames F frames m r

      done : Keeps (length b) size 0 done_pair
      done =
          whole_frames-Keeps frames m (length b) size r.1 r.0 (residual-Keeps n b t v room)
            (omega (arith, room, parts))

  -- How many bytes of a frame are left behind a call for `n` bytes, as GenerateSine promises it.
  abbrev pub bytes_left : Bool → NtStatus → ℕ → Tone F → ℕ
  bytes_left disabled saved n t =
      if t.mute || disabled
      then t.partial_frame_bytes
      else if nt_success saved
      then missing (n - t.partial_frame_bytes) t.frame_size
      else t.partial_frame_bytes

  silence-Keeps :
      (n : ℕ) (b : List ℕ) (t : Tone F)
      → IsTone F t
      → n ≤ length b
      → Keeps (length b) t.frame_size t.partial_frame_bytes (t, store_bytes 0 (zeros n) b)
  silence-Keeps n b t v room = record {
    tone = v;
    buffer = length-store_bytes-zeros 0 n b (omega (arith, room));
    same = refl;
    rest = refl;
  }

  generate_sine-Keeps :
      (disabled : Bool) (saved : NtStatus) (n : ℕ) (b : List ℕ) (t : Tone F)
      → IsTone F t
      → n ≤ length b
      → Keeps
          (length b)
          t.frame_size
          (bytes_left disabled saved n t)
          (generate_sine F disabled saved n (t, b))
  unfolding generate_sine
  generate_sine-Keeps disabled saved n b t v room = elim (Bool-cases (t.mute || disabled)) [
    | inl silent ↦ rw silent (silence-Keeps n b t v room)
    | inr sounds ↦ rw sounds (elim (Bool-cases (nt_success saved)) [
      | inl ready ↦ rw ready (fill-Keeps n b t v room)
      | inr failed ↦ rw failed (silence-Keeps n b t v room)
    ])
  ]

  -- From a well-formed generator, one whose partial frame has the memory of a frame of fewer than 2
  -- ^ 32 bytes, with less than a frame left in it, and whose channels are a word: GenerateSine, for
  -- at most as many bytes as the buffer has, leaves a well-formed generator and a buffer of the
  -- same length, which a store past its end would lengthen. The bytes left of the last frame are as
  -- many as before where silence is delivered, and else what is missing of the last frame that the
  -- bytes behind the residual ones begin.
  pub generate_sine-IsTone :
      (disabled : Bool) (saved : NtStatus) (n : ℕ) (b : List ℕ) (t : Tone F)
      → IsTone F t
      → n ≤ length b
      → IsTone F (generate_sine F disabled saved n (t, b)).0
        × (length (generate_sine F disabled saved n (t, b)).1 ≡ length b)
        × ((generate_sine F disabled saved n (t, b)).0.partial_frame_bytes
            ≡ bytes_left disabled saved n t)
  generate_sine-IsTone disabled saved n b t v room =
      let k = generate_sine-Keeps disabled saved n b t v room in (k.tone, k.buffer, k.rest)
