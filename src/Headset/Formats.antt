-- ===== src/Headset/Formats.antt =====
-- inferno_driver/UsbHsDevice.cpp and A2dpHpDevice.cpp, VerifyEndpointFormatCompatibility: the format
-- of the hardware that a sideband device can take.
use inferno_windows.Prelude.{
  ℕ, suc, ◌+◌, ◌≡◌, ◌⊎◌, inl, inr, refl, ap, ◌∙◌, arith, Bool, true, false, ◌&&◌, Bool-cases,
  Option, none, some, List, [], ◌∷◌, ◌++◌, length, ◌==◌, leb, if◌then◌else◌, if_true, if_false,
}
use inferno_windows.Status.{NtStatus, success, not_supported}

-- A KSDATAFORMAT that may be a KSDATAFORMAT_WAVEFORMATEX: FormatSize and the members that are
-- compared.
pub record Format : Type 0 where
  pub size : ℕ
  pub samples_per_sec : ℕ
  pub channels : ℕ
  pub bits_per_sample : ℕ

-- `base` and `wave` are the sizes of the two structures.
module _ (base wave : ℕ) (formats : List Format) where
  abbrev pub compatible : Format → Format → Bool
  compatible hardware e =
      leb base e.size
      && (leb wave e.size
          && ((e.samples_per_sec == hardware.samples_per_sec)
              && ((e.channels == hardware.channels)
                  && (e.bits_per_sample == hardware.bits_per_sample))))

  -- The inner loop, over the formats of the endpoint.
  unfoldable pub matches_some : Format → List Format → Bool
  matches_some hardware [] = false
  matches_some hardware (e ∷ es) =
      let rest = matches_some hardware es in if compatible hardware e then true else rest

  -- The outer loop, from the format `i` of the hardware on.
  unfoldable pub verify_from : ℕ → List Format → NtStatus × Option ℕ → NtStatus × Option ℕ
  verify_from i [] r = r
  verify_from i (h ∷ hs) r =
      verify_from (i + 1) hs (if matches_some h formats then (success, some i) else r)

  unfoldable pub verify_endpoint_format_compatibility : List Format → NtStatus × Option ℕ
  verify_endpoint_format_compatibility hardware = verify_from 0 hardware (not_supported, none)

  -- None of the formats of the hardware matches.
  abbrev pub NoneMatches : List Format → Type 0
  NoneMatches [] = true ≡ true
  NoneMatches (h ∷ hs) = (matches_some h formats ≡ false) × NoneMatches hs

  -- A format of the hardware that matches, with none behind it that does.
  abbrev pub IsLastMatch : List Format → ℕ → Type 0
  IsLastMatch hardware k =
      (before : List Format) × (h : Format) × (after : List Format) × (hardware
        ≡ before ++ (h ∷ after))
      × (k ≡ length before)
      × (matches_some h formats ≡ true)
      × NoneMatches after

  verify_from_lem :
      (i : ℕ) (hs : List Format) (r : NtStatus × Option ℕ)
      → ((verify_from i hs r ≡ r) × NoneMatches hs)
        ⊎ ((k : ℕ) × (verify_from i hs r ≡ (success, some (i + k))) × IsLastMatch hs k)
  unfolding verify_from
  verify_from_lem i [] r = inl (refl, refl)
  verify_from_lem i (h ∷ hs) r =
      step (verify_from_lem (i + 1) hs (if matches_some h formats then (success, some i) else r))
    where
      step :
          ((verify_from (i + 1) hs (if matches_some h formats then (success, some i) else r)
                ≡ (if matches_some h formats then (success, some i) else r))
              × NoneMatches hs)
            ⊎ ((k : ℕ) × (verify_from
                    (i + 1)
                    hs
                    (if matches_some h formats then (success, some i) else r)
                  ≡ (success, some ((i + 1) + k)))
                × IsLastMatch hs k)
          → ((verify_from i (h ∷ hs) r ≡ r) × NoneMatches (h ∷ hs))
            ⊎ ((k : ℕ) × (verify_from i (h ∷ hs) r ≡ (success, some (i + k)))
                × IsLastMatch (h ∷ hs) k)
      step (inr (k, e, (before, x, after, split, at, hit, miss))) = inr (
        suc k,
        e ∙ ap (λ (n : ℕ). (success, some n)) (omega arith),
        (h ∷ before, x, after, ap (◌∷◌ h) split, omega (arith, at), hit, miss),
      )
      step (inl (e, miss)) = elim (Bool-cases (matches_some h formats)) [
        | inl hit ↦ inr (
          0,
          e
              ∙ if_true (matches_some h formats) _ _ hit
              ∙ ap (λ (n : ℕ). (success, some n)) (omega arith),
          ([], h, hs, refl, refl, hit, miss),
        )
        | inr differs ↦ inl (e ∙ if_false (matches_some h formats) _ _ differs, (differs, miss))
      ]

-- VerifyEndpointFormatCompatibility gives the last format of the hardware that matches one of the
-- endpoint, whatever stands before it, or fails with STATUS_NOT_SUPPORTED when none matches.
pub verify_endpoint_format_compatibility_last :
    (base wave : ℕ) (formats hardware : List Format)
    → ((verify_endpoint_format_compatibility base wave formats hardware ≡ (not_supported, none))
        × NoneMatches base wave formats hardware)
      ⊎ ((k : ℕ) × (verify_endpoint_format_compatibility base wave formats hardware
            ≡ (success, some k))
          × IsLastMatch base wave formats hardware k)
unfolding verify_endpoint_format_compatibility
verify_endpoint_format_compatibility_last base wave formats hardware =
    elim (verify_from_lem base wave formats 0 hardware (not_supported, none)) [
      | inl p ↦ inl p
      | inr (k, e, p) ↦ inr (k, e ∙ ap (λ (n : ℕ). (success, some n)) (omega arith), p)
    ]
