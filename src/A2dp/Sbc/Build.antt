-- ===== src/A2dp/Sbc/Build.antt =====
-- bluetooth/audio/hal/A2dpOffloadCodecSbc.cpp: `BuildConfiguration`. Its `false` is `none`: the caller
-- then drops the vector that it has begun to fill.
use android_device_peter_gsi.Base.{
  ℕ, min, max, Bool, not, ◌&&◌, ◌||◌, Option, none, some, List, [], ◌∷◌, ltb, ◌==◌, if◌then◌else◌,
  length, replicate,
}
use android_device_peter_gsi.Base.Maybe.{◌>>=◌}
use android_device_peter_gsi.Base.Int.{pos, leb_ℤ}
use android_device_peter_gsi.A2dp.Bits.{get_range, set_bit, set_range}
use android_device_peter_gsi.A2dp.Codec.{CodecParameters, hinted, first_common}
use android_device_peter_gsi.A2dp.Sbc.{
  minimum_bitpool, maximum_bitpool, get_sampling_frequency_bit, get_channel_mode_bit, get_bitpool,
  capabilities,
}
use android_device_peter_gsi.A2dp.Sbc.Configuration.{out_of_range}

-- The hint's fields, when there is a hint.
abbrev pub sampling_frequency_hint : Option CodecParameters → Option ℕ
sampling_frequency_hint none = none
sampling_frequency_hint (some hint) = get_sampling_frequency_bit hint.sampling_frequency_hz

abbrev pub channel_mode_hint : Option CodecParameters → Option ℕ
channel_mode_hint none = none
channel_mode_hint (some hint) = get_channel_mode_bit hint.channel_mode

-- The bitpools of the remote side, or the whole range if they make no sense.
unfoldable pub remote_bitpools : List ℕ → ℕ × ℕ
remote_bitpools rcaps =
    let low = get_range rcaps minimum_bitpool in
    let high = get_range rcaps maximum_bitpool in
    if out_of_range low || out_of_range high || ltb high low then (2, 250) else (low, high)

-- `hint->maxBitrate && hint->maxBitrate >= hint->minBitrate`.
abbrev pub has_maximum : CodecParameters → Bool
has_maximum hint =
    not (leb_ℤ hint.max_bitrate (pos 0) && leb_ℤ (pos 0) hint.max_bitrate)
    && leb_ℤ hint.min_bitrate hint.max_bitrate

unfoldable pub hint_bitpools : List ℕ → Option CodecParameters → ℕ × ℕ → ℕ × ℕ
hint_bitpools configuration none (low, high) = (low, high)
hint_bitpools configuration (some hint) (low, high) = (
  max low (get_bitpool configuration hint.min_bitrate),
  if has_maximum hint then min high (get_bitpool configuration hint.max_bitrate) else high,
)

-- "Select Bitpool", on the vector in which the other fields are set.
unfoldable pub bitpools : List ℕ → Option CodecParameters → List ℕ → ℕ × ℕ
unfolding remote_bitpools hint_bitpools
bitpools rcaps hint config =
    let (low, high) = remote_bitpools rcaps in
    hint_bitpools config hint (
      max low (get_range capabilities minimum_bitpool),
      max high (get_range capabilities maximum_bitpool),
    )

unfoldable pub select_bitpool : List ℕ → Option CodecParameters → List ℕ → List ℕ
select_bitpool rcaps hint config =
    set_range (set_range config minimum_bitpool (bitpools rcaps hint config).0) maximum_bitpool
      (bitpools rcaps hint config).1

-- The five bits that the builder sets.
pub record Choices : Type 0 where
  pub sf : ℕ
  pub cm : ℕ
  pub bl : ℕ
  pub sb : ℕ
  pub am : ℕ

unfoldable pub choices : List ℕ → Option CodecParameters → Option Choices
choices rcaps hint = do
  sf ← first_common capabilities rcaps (hinted (sampling_frequency_hint hint) (2 ∷ 3 ∷ []))
  cm ← first_common capabilities rcaps (hinted (channel_mode_hint hint) (7 ∷ 6 ∷ 5 ∷ 4 ∷ []))
  bl ← first_common capabilities rcaps (11 ∷ 10 ∷ 9 ∷ 8 ∷ [])
  sb ← first_common capabilities rcaps (12 ∷ 13 ∷ [])
  am ← first_common capabilities rcaps (15 ∷ 14 ∷ [])
  some (record { sf = sf; cm = cm; bl = bl; sb = sb; am = am })

unfoldable pub chosen : Choices → List ℕ
chosen c =
    let frequency = set_bit (replicate (length capabilities) 0) c.sf 1 in
    set_bit (set_bit (set_bit (set_bit frequency c.cm 1) c.bl 1) c.sb 1) c.am 1

unfoldable pub build_configuration : List ℕ → Option CodecParameters → Option (List ℕ)
build_configuration rcaps hint =
    if length rcaps == length capabilities
    then (do c ← choices rcaps hint; some (select_bitpool rcaps hint (chosen c)))
    else none
