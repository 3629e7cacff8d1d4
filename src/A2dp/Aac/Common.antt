-- ===== src/A2dp/Aac/Common.antt =====
-- The choices of the AAC builder: each is in its own field and in both vectors of capabilities.
use android_device_peter_gsi.Base.{
  ℕ, ◌≤◌, ◌<◌, Option, none, some, List, [], ◌∷◌, ◌≡◌, sym, arith, length, Among, true, ◌==◌,
  if-eq-some, subst,
}
use android_device_peter_gsi.Base.Maybe.{◌>>=◌, >>=-eq-some, some_cancel}
use android_device_peter_gsi.A2dp.Bits.{get}
use android_device_peter_gsi.A2dp.Codec.{CodecParameters, hinted, first_common-common}
use android_device_peter_gsi.A2dp.Aac.{capabilities, get_sampling_frequency_bit, get_channels_bit}
use android_device_peter_gsi.A2dp.Aac.Build.{
  sampling_frequency_hint, channels_hint, select_bitrate, Choices, choices, chosen,
  build_configuration,
}

pub record AreCommon (rcaps : List ℕ) (c : Choices) : Type 0 where
  pub ot_within : c.ot < 2
  pub sf_within : (8 ≤ c.sf) × (c.sf < 20)
  pub ch_within : (20 ≤ c.ch) × (c.ch < 22)
  pub ot_common : (get capabilities c.ot ≡ true) × (get rcaps c.ot ≡ true)
  pub sf_common : (get capabilities c.sf ≡ true) × (get rcaps c.sf ≡ true)
  pub ch_common : (get capabilities c.ch ≡ true) × (get rcaps c.ch ≡ true)

hinted-sf :
    (hint : Option CodecParameters) (b : ℕ)
    → Among b (hinted (sampling_frequency_hint hint) (19 ∷ 18 ∷ 16 ∷ 15 ∷ []))
    → (8 ≤ b) × (b < 20)
unfolding get_sampling_frequency_bit
hinted-sf none b m = omega arith
hinted-sf (some hint) b m = ground arith

hinted-ch :
    (hint : Option CodecParameters) (b : ℕ)
    → Among b (hinted (channels_hint hint) (21 ∷ 20 ∷ []))
    → (20 ≤ b) × (b < 22)
unfolding get_channels_bit
hinted-ch none b m = omega arith
hinted-ch (some hint) b m = ground arith

choices-AreCommon :
    (rcaps : List ℕ) (hint : Option CodecParameters) (c : Choices)
    → choices rcaps hint ≡ some c
    → AreCommon rcaps c
unfolding choices
choices-AreCommon rcaps hint c e =
    let (ot, ot_e, e₁) = >>=-eq-some _ _ e in
    let (sf, sf_e, e₂) = >>=-eq-some _ _ e₁ in
    let (ch, ch_e, e₃) = >>=-eq-some _ _ e₂ in
    let (ot_l, ot_r, ot_in) = first_common-common capabilities rcaps _ ot ot_e in
    let (sf_l, sf_r, sf_in) = first_common-common capabilities rcaps _ sf sf_e in
    let (ch_l, ch_r, ch_in) = first_common-common capabilities rcaps _ ch ch_e in
    subst (AreCommon rcaps) (some_cancel e₃) (record {
      ot_within = omega arith;
      sf_within = hinted-sf hint sf sf_in;
      ch_within = hinted-ch hint ch ch_in;
      ot_common = (ot_l, ot_r);
      sf_common = (sf_l, sf_r);
      ch_common = (ch_l, ch_r);
    })

pub build_configuration-cases :
    (rcaps : List ℕ) (hint : Option CodecParameters) (config : List ℕ)
    → build_configuration rcaps hint ≡ some config
    → (c : Choices) × AreCommon rcaps c × (config ≡ select_bitrate rcaps hint (chosen c))
unfolding build_configuration
build_configuration-cases rcaps hint config e =
    let build = λ (c : Choices). some (select_bitrate rcaps hint (chosen c)) in
    let same_size = length rcaps == length capabilities in
    let (c, c_e, rest) =
      >>=-eq-some (choices rcaps hint) build
        (if-eq-some same_size (choices rcaps hint >>= build) e) in
    (c, choices-AreCommon rcaps hint c c_e, sym (some_cancel rest))
