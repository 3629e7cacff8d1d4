-- ===== src/A2dp/Aac/Negotiation.antt =====
-- A configuration that AAC builds, read back by its own parser, and its bit rate.
use android_device_peter_gsi.Base.{
  ℕ, ◌+◌, ◌%◌, ◌^◌, ◌≤◌, ◌<◌, Option, some, List, [], ◌∷◌, ◌≡◌, refl, sym, ◌∙◌, arith, true, subst,
  Among, replicate, Bool-cases, inl, inr, ◌&&◌, if◌then◌else◌,
}
use android_device_peter_gsi.A2dp.Bits.{Range, get, get_range, set_bit, find_active_bit}
use android_device_peter_gsi.A2dp.Bits.Laws.{
  IsVector, set_bit-IsVector, set_range-IsVector, get_bit-set_ne, get_range-set_range,
}
use android_device_peter_gsi.A2dp.Bits.Active.{find_active_bit_iff, find_active_bit-Agree, Agree}
use android_device_peter_gsi.A2dp.Bits.Several.{
  Fit, Apart, set_bits, set_bits-IsVector, find_active_bit-set_bits, zeros-IsVector, zeros-IsClear,
  set_range-Agree,
}
use android_device_peter_gsi.A2dp.Codec.{CodecParameters, accepted}
use android_device_peter_gsi.A2dp.Aac.{
  object_type, sampling_frequency, channels, vbr_supported, bitrate_range, capabilities,
}
use android_device_peter_gsi.A2dp.Aac.Configuration.{aac_parameters, parse_configuration}
use android_device_peter_gsi.A2dp.Aac.Parsing.{IsAcceptable, parse_configuration_iff}
use android_device_peter_gsi.A2dp.Aac.Build.{
  bitrate, wants_vbr, select_bitrate, Choices, chosen, build_configuration,
}
use android_device_peter_gsi.A2dp.Aac.Common.{AreCommon, build_configuration-cases}

abbrev bits : Choices → List ℕ
bits c = c.ot ∷ c.sf ∷ c.ch ∷ []

chosen-set_bits : (c : Choices) → chosen c ≡ set_bits (replicate 6 0) (bits c)
unfolding chosen set_bits capabilities
chosen-set_bits c = refl

chosen-IsVector : (c : Choices) → IsVector 6 (chosen c)
chosen-IsVector c =
    rw (chosen-set_bits c) (set_bits-IsVector 6 (bits c) (replicate 6 0) (zeros-IsVector 6))

chosen-field :
    (c : Choices) (r : Range) (b : ℕ)
    → (r.first ≤ b)
      × (b < r.first + r.len)
      × Among b (bits c)
      × Fit 48 (bits c)
      × Apart r b (bits c)
    → find_active_bit (chosen c) r ≡ some b
chosen-field c r b place = rw (chosen-set_bits c) (
    find_active_bit-set_bits 6 (bits c) (replicate 6 0) r b place.0 place.1 place.2 place.3 place.4
      (zeros-IsVector 6) (zeros-IsClear 6 r))

-- Writing the last two fields leaves those before them alone.
module _ (rcaps : List ℕ) (hint : Option CodecParameters) (v : List ℕ) (h : IsVector 6 v) where
  flag : ℕ
  flag = if get capabilities vbr_supported && get rcaps vbr_supported then 1 else 0

  flagged : List ℕ
  flagged = if wants_vbr hint then set_bit v vbr_supported flag else v

  flagged-IsVector : IsVector 6 flagged
  unfolding flagged flag
  flagged-IsVector = elim (Bool-cases (wants_vbr hint)) [
    | inl wanted ↦ rw wanted (set_bit-IsVector 6 v vbr_supported flag (ground arith) h)
    | inr fixed ↦ rw fixed h
  ]

  flagged-Agree : (r : Range) → r.first + r.len ≤ 24 → Agree r flagged v
  unfolding flagged flag
  flagged-Agree r before j lo hi = elim (Bool-cases (wants_vbr hint)) [
    | inl wanted ↦
        rw wanted
          (get_bit-set_ne 6 v vbr_supported j flag (ground arith) (omega arith) (omega arith) h)
    | inr fixed ↦ rw fixed refl
  ]

  select_bitrate-IsVector : IsVector 6 (select_bitrate rcaps hint v)
  unfolding select_bitrate flagged flag
  select_bitrate-IsVector = set_range-IsVector 6 _ bitrate_range flagged flagged-IsVector

  select_bitrate-Agree :
      (r : Range) → r.first + r.len ≤ 24 → Agree r (select_bitrate rcaps hint v) v
  unfolding select_bitrate flagged flag
  select_bitrate-Agree r before j lo hi =
      set_range-Agree 6 _ r bitrate_range flagged (omega arith) flagged-IsVector (omega arith) j lo
        hi
      ∙ flagged-Agree r before j lo hi

  select_bitrate-rate :
      get_range (select_bitrate rcaps hint v) bitrate_range ≡ bitrate hint % 2 ^ 23
  unfolding select_bitrate flagged flag
  select_bitrate-rate = get_range-set_range 6 _ bitrate_range flagged (omega arith) flagged-IsVector

select_bitrate-IsAcceptable :
    (rcaps : List ℕ) (hint : Option CodecParameters) (c : Choices)
    → AreCommon rcaps c
    → IsAcceptable (select_bitrate rcaps hint (chosen c)) c
select_bitrate-IsAcceptable rcaps hint c h =
    let v = chosen c in
    let w = select_bitrate rcaps hint v in
    let vector = chosen-IsVector c in
    let agree = select_bitrate-Agree rcaps hint v vector in
    let only =
      λ (r : Range) (b : ℕ) (before : r.first + r.len ≤ 24) (found : find_active_bit v r ≡ some b).
        (find_active_bit_iff w r b).0 (find_active_bit-Agree r w v (agree r before) ∙ found) in
    record {
      size = (select_bitrate-IsVector rcaps hint v vector).size;
      ot =
          only object_type c.ot (omega arith) (
            chosen-field c object_type c.ot (omega (arith, h.ot_within, h.sf_within, h.ch_within)));
      ot_supported = h.ot_common.0;
      sf = only sampling_frequency c.sf (omega arith) (
          chosen-field c sampling_frequency c.sf
            (omega (arith, h.ot_within, h.sf_within, h.ch_within)));
      sf_supported = h.sf_common.0;
      ch =
          only channels c.ch (omega arith)
            (chosen-field c channels c.ch (omega (arith, h.ot_within, h.sf_within, h.ch_within)));
      ch_supported = h.ch_common.0;
    }

-- Whatever AAC builds, its own parser accepts, with an object type, a sampling frequency and channels
-- whose bits the remote capabilities have; the bit rate that it holds is that of the hint (no limit
-- without one), cut to the 23 bits of its field.
pub build_configuration-parse_configuration :
    (rcaps : List ℕ) (hint : Option CodecParameters) (config : List ℕ)
    → build_configuration rcaps hint ≡ some config
    → (c : Choices) × (parse_configuration config ≡ accepted (aac_parameters config c.ot c.sf c.ch))
      × (get rcaps c.ot ≡ true)
      × (get rcaps c.sf ≡ true)
      × (get rcaps c.ch ≡ true)
      × (get_range config bitrate_range ≡ bitrate hint % 2 ^ 23)
build_configuration-parse_configuration rcaps hint config e =
    let (c, h, built) = build_configuration-cases rcaps hint config e in
    let acceptable =
      subst (λ w. IsAcceptable w c) (sym built) (select_bitrate-IsAcceptable rcaps hint c h) in
    (
      c,
      (parse_configuration_iff config _).1 (c, acceptable, refl),
      h.ot_common.1,
      h.sf_common.1,
      h.ch_common.1,
      rw built (select_bitrate-rate rcaps hint (chosen c) (chosen-IsVector c)),
    )
