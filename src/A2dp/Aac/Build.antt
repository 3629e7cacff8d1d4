-- ===== src/A2dp/Aac/Build.antt =====
-- bluetooth/audio/hal/A2dpOffloadCodecAac.cpp: `BuildConfiguration`. Its `false` is `none`: the caller then
-- drops the vector that it has begun to fill.
use android_device_peter_gsi.Base.{
  ℕ, min, Bool, true, false, not, ◌&&◌, Option, none, some, List, [], ◌∷◌, ltb, ◌==◌, if◌then◌else◌,
  length, replicate,
}
use android_device_peter_gsi.Base.Maybe.{◌>>=◌}
use android_device_peter_gsi.Base.Int.{ℤ, pos, negsuc}
use android_device_peter_gsi.A2dp.Bits.{get, get_range, set_bit, set_range}
use android_device_peter_gsi.A2dp.Codec.{CodecParameters, hinted, first_common}
use android_device_peter_gsi.A2dp.Aac.{
  vbr_supported, bitrate_range, get_sampling_frequency_bit, get_channels_bit, capabilities,
}

-- The hint's fields, when there is a hint.
abbrev pub sampling_frequency_hint : Option CodecParameters → Option ℕ
sampling_frequency_hint none = none
sampling_frequency_hint (some hint) = get_sampling_frequency_bit hint.sampling_frequency_hz

abbrev pub channels_hint : Option CodecParameters → Option ℕ
channels_hint none = none
channels_hint (some hint) = get_channels_bit hint.channel_mode

-- `!hint || hint->minBitrate == 0`.
abbrev pub wants_vbr : Option CodecParameters → Bool
wants_vbr none = true
wants_vbr (some hint) = is_zero hint.min_bitrate
  where
    is_zero : ℤ → Bool
    is_zero (pos n) = n == 0
    is_zero (negsuc n) = false

-- The bit rate, before it is cut to the width of its range: `std::min` with the local limit if there is
-- one, else what the hint says.
abbrev pub limited : ℤ → ℕ → ℕ
limited (pos n) local =
    if ltb 0 n && not (local == 0) then min n local else if ltb 0 n then n else local
limited (negsuc n) local = local

unfoldable pub bitrate : Option CodecParameters → ℕ
bitrate none = get_range capabilities bitrate_range
bitrate (some hint) = limited hint.max_bitrate (get_range capabilities bitrate_range)

-- "Select Bitrate", on the vector in which the other fields are set.
unfoldable pub select_bitrate : List ℕ → Option CodecParameters → List ℕ → List ℕ
unfolding bitrate
select_bitrate rcaps hint config =
    let vbr = if get capabilities vbr_supported && get rcaps vbr_supported then 1 else 0 in
    let config' = if wants_vbr hint then set_bit config vbr_supported vbr else config in
    set_range config' bitrate_range (bitrate hint)

-- The three bits that the builder sets.
pub record Choices : Type 0 where
  pub ot : ℕ
  pub sf : ℕ
  pub ch : ℕ

unfoldable pub choices : List ℕ → Option CodecParameters → Option Choices
choices rcaps hint = do
  ot ← first_common capabilities rcaps (0 ∷ 1 ∷ [])
  sf ←
      first_common capabilities rcaps
        (hinted (sampling_frequency_hint hint) (19 ∷ 18 ∷ 16 ∷ 15 ∷ []))
  ch ← first_common capabilities rcaps (hinted (channels_hint hint) (21 ∷ 20 ∷ []))
  some (record { ot = ot; sf = sf; ch = ch })

unfoldable pub chosen : Choices → List ℕ
chosen c = set_bit (set_bit (set_bit (replicate (length capabilities) 0) c.ot 1) c.sf 1) c.ch 1

unfoldable pub build_configuration : List ℕ → Option CodecParameters → Option (List ℕ)
build_configuration rcaps hint =
    if length rcaps == length capabilities
    then (do c ← choices rcaps hint; some (select_bitrate rcaps hint (chosen c)))
    else none
