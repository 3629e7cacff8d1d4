-- ===== src/A2dp/Sbc/Common.antt =====
-- The choices of the SBC builder: each is in its own field and in both vectors of capabilities.

use android_device_peter_gsi.Base.{
  ℕ, ◌+◌, ◌≤◌, ◌<◌, Option, none, some, List, [], ◌∷◌, ◌≡◌, refl, sym, inr, arith, length, Among,
  true, ◌==◌, if-eq-some, subst, holds_below, holds_below-below, ◌-◌,
}
use android_device_peter_gsi.Base.Maybe.{◌>>=◌, >>=-eq-some, some_cancel}
use android_device_peter_gsi.A2dp.Bits.{get, get_bit}
use android_device_peter_gsi.A2dp.Codec.{
  CodecParameters, hinted, first_common, first_common-common, first_common-some,
}
use android_device_peter_gsi.A2dp.Sbc.{
  capabilities, get_sampling_frequency_bit, get_channel_mode_bit,
}
use android_device_peter_gsi.A2dp.Sbc.Parsing.{capabilities_limits}
use android_device_peter_gsi.A2dp.Sbc.Build.{
  sampling_frequency_hint, channel_mode_hint, select_bitpool, Choices, choices, chosen,
  build_configuration,
}

-- Each choice is in its own field and in both vectors of capabilities.
pub record AreCommon (rcaps : List ℕ) (c : Choices) : Type 0 where
  pub sf_among : Among c.sf (0 ∷ 1 ∷ 2 ∷ 3 ∷ [])
  pub cm_among : Among c.cm (4 ∷ 5 ∷ 6 ∷ 7 ∷ [])
  pub bl_among : Among c.bl (8 ∷ 9 ∷ 10 ∷ 11 ∷ [])
  pub sb_among : Among c.sb (12 ∷ 13 ∷ [])
  pub am_among : Among c.am (14 ∷ 15 ∷ [])
  pub sf_common : (get capabilities c.sf ≡ true) × (get rcaps c.sf ≡ true)
  pub cm_common : (get capabilities c.cm ≡ true) × (get rcaps c.cm ≡ true)
  pub bl_common : (get capabilities c.bl ≡ true) × (get rcaps c.bl ≡ true)
  pub sb_common : (get capabilities c.sb ≡ true) × (get rcaps c.sb ≡ true)
  pub am_common : (get capabilities c.am ≡ true) × (get rcaps c.am ≡ true)

hinted-sf :
    (hint : Option CodecParameters) (b : ℕ)
    → Among b (hinted (sampling_frequency_hint hint) (2 ∷ 3 ∷ []))
    → Among b (0 ∷ 1 ∷ 2 ∷ 3 ∷ [])
unfolding get_sampling_frequency_bit
hinted-sf none b m = ground arith
hinted-sf (some hint) b m = ground arith

hinted-cm :
    (hint : Option CodecParameters) (b : ℕ)
    → Among b (hinted (channel_mode_hint hint) (7 ∷ 6 ∷ 5 ∷ 4 ∷ []))
    → Among b (4 ∷ 5 ∷ 6 ∷ 7 ∷ [])
unfolding get_channel_mode_bit
hinted-cm none b m = ground arith
hinted-cm (some hint) b m = ground arith

choices-AreCommon :
    (rcaps : List ℕ) (hint : Option CodecParameters) (c : Choices)
    → choices rcaps hint ≡ some c
    → AreCommon rcaps c
unfolding choices
choices-AreCommon rcaps hint c e =
    let (sf, sf_e, e₁) = >>=-eq-some _ _ e in
    let (cm, cm_e, e₂) = >>=-eq-some _ _ e₁ in
    let (bl, bl_e, e₃) = >>=-eq-some _ _ e₂ in
    let (sb, sb_e, e₄) = >>=-eq-some _ _ e₃ in
    let (am, am_e, e₅) = >>=-eq-some _ _ e₄ in
    let (sf_l, sf_r, sf_in) = first_common-common capabilities rcaps _ sf sf_e in
    let (cm_l, cm_r, cm_in) = first_common-common capabilities rcaps _ cm cm_e in
    let (bl_l, bl_r, bl_in) = first_common-common capabilities rcaps _ bl bl_e in
    let (sb_l, sb_r, sb_in) = first_common-common capabilities rcaps _ sb sb_e in
    let (am_l, am_r, am_in) = first_common-common capabilities rcaps _ am am_e in
    subst (AreCommon rcaps) (some_cancel e₅) (record {
      sf_among = hinted-sf hint sf sf_in;
      cm_among = hinted-cm hint cm cm_in;
      bl_among = omega arith;
      sb_among = omega arith;
      am_among = omega arith;
      sf_common = (sf_l, sf_r);
      cm_common = (cm_l, cm_r);
      bl_common = (bl_l, bl_r);
      sb_common = (sb_l, sb_r);
      am_common = (am_l, am_r);
    })

pub build_configuration-cases :
    (rcaps : List ℕ) (hint : Option CodecParameters) (config : List ℕ)
    → build_configuration rcaps hint ≡ some config
    → (c : Choices) × AreCommon rcaps c × (config ≡ select_bitpool rcaps hint (chosen c))
unfolding build_configuration
build_configuration-cases rcaps hint config e =
    let build = λ (c : Choices). some (select_bitpool rcaps hint (chosen c)) in
    let same_size = length rcaps == length capabilities in
    let (c, c_e, rest) =
      >>=-eq-some (choices rcaps hint) build
        (if-eq-some same_size (choices rcaps hint >>= build) e) in
    (c, choices-AreCommon rcaps hint c c_e, sym (some_cancel rest))

-- The remote vector has the size of the local one, and in each field a bit that the builder tries.
pub record HasDefaults (rcaps : List ℕ) (c : Choices) : Type 0 where
  pub size : length rcaps ≡ 4
  pub sf : Among c.sf (2 ∷ 3 ∷ []) × (get rcaps c.sf ≡ true)
  pub cm : Among c.cm (7 ∷ 6 ∷ 5 ∷ 4 ∷ []) × (get rcaps c.cm ≡ true)
  pub bl : Among c.bl (11 ∷ 10 ∷ 9 ∷ 8 ∷ []) × (get rcaps c.bl ≡ true)
  pub sb : Among c.sb (12 ∷ 13 ∷ []) × (get rcaps c.sb ≡ true)
  pub am : Among c.am (15 ∷ 14 ∷ []) × (get rcaps c.am ≡ true)

local_bits_table : holds_below 14 (λ i. get capabilities (i + 2)) ≡ true
unfolding holds_below capabilities get_bit
local_bits_table = refl

-- The local capabilities have every bit from 2 to 15.
local_bits : (b : ℕ) → 2 ≤ b → b < 16 → get capabilities b ≡ true
local_bits b lo hi =
    let back : b - 2 + 2 ≡ b = omega arith in
    subst (λ j. get capabilities j ≡ true) back
      (holds_below-below 14 (λ i. get capabilities (i + 2)) (b - 2) local_bits_table (omega arith))

Among-hinted : (o : Option ℕ) (bits : List ℕ) (b : ℕ) → Among b bits → Among b (hinted o bits)
Among-hinted none bits b m = m
Among-hinted (some x) bits b m = inr m

pick :
    (rcaps bits : List ℕ) (b : ℕ)
    → Among b bits
    → (2 ≤ b) × (b < 16)
    → get rcaps b ≡ true
    → (d : ℕ) × (first_common capabilities rcaps bits ≡ some d)
pick rcaps bits b m bound =
    first_common-some capabilities rcaps bits b m (local_bits b bound.0 bound.1)

choices-some :
    (rcaps : List ℕ) (hint : Option CodecParameters) (c : Choices)
    → HasDefaults rcaps c
    → (d : Choices) × (choices rcaps hint ≡ some d)
unfolding choices
choices-some rcaps hint c h =
    let sf_tried = hinted (sampling_frequency_hint hint) (2 ∷ 3 ∷ []) in
    let sf_in = Among-hinted (sampling_frequency_hint hint) (2 ∷ 3 ∷ []) c.sf h.sf.0 in
    let (sf, sf_e) = pick rcaps sf_tried c.sf sf_in (omega (arith, h.sf.0)) h.sf.1 in
    let cm_tried = hinted (channel_mode_hint hint) (7 ∷ 6 ∷ 5 ∷ 4 ∷ []) in
    let cm_in = Among-hinted (channel_mode_hint hint) (7 ∷ 6 ∷ 5 ∷ 4 ∷ []) c.cm h.cm.0 in
    let (cm, cm_e) = pick rcaps cm_tried c.cm cm_in (omega (arith, h.cm.0)) h.cm.1 in
    let (bl, bl_e) = pick rcaps (11 ∷ 10 ∷ 9 ∷ 8 ∷ []) c.bl h.bl.0 (omega (arith, h.bl.0)) h.bl.1 in
    let (sb, sb_e) = pick rcaps (12 ∷ 13 ∷ []) c.sb h.sb.0 (omega (arith, h.sb.0)) h.sb.1 in
    let (am, am_e) = pick rcaps (15 ∷ 14 ∷ []) c.am h.am.0 (omega (arith, h.am.0)) h.am.1 in
    (record { sf = sf; cm = cm; bl = bl; sb = sb; am = am }, rw (sf_e, cm_e, bl_e, sb_e, am_e))

-- A configuration is built for every remote vector of four bytes that has, in each of the five
-- fields, a bit that the builder tries, whatever the hint.
pub build_configuration-some :
    (rcaps : List ℕ) (hint : Option CodecParameters) (c : Choices)
    → HasDefaults rcaps c
    → (config : List ℕ) × (build_configuration rcaps hint ≡ some config)
unfolding build_configuration
build_configuration-some rcaps hint c h =
    let (four, least, most) = capabilities_limits in
    let (d, e) = choices-some rcaps hint c h in
    (select_bitpool rcaps hint (chosen d), rw (h.size, four, e))
