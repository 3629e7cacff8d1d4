-- ===== src/A2dp/Aac/Parsing.antt =====
-- Which configurations the AAC parser accepts, and what it makes of them.
use android_device_peter_gsi.Base.{
  ℕ, List, ◌≡◌, refl, sym, ap, ◌↔◌, ◌∙◌, arith, length, true, ==_iff,
}
use android_device_peter_gsi.A2dp.Bits.{get, get_range, get_bit}
use android_device_peter_gsi.A2dp.Bits.Active.{OnlyBit, find_active_bit_iff}
use android_device_peter_gsi.A2dp.Codec.{
  accepted, accepted-injective, guard-accepted, found-accepted, then-accepted,
}
use android_device_peter_gsi.A2dp.Aac.{
  object_type, sampling_frequency, channels, vbr_supported, bitrate_range, capabilities,
}
use android_device_peter_gsi.A2dp.Aac.Configuration.{
  AacParameters, aac_parameters, check_bitrate, parse_configuration,
}
use android_device_peter_gsi.A2dp.Aac.Build.{Choices}

-- A vector of six bytes in which each of the first three fields has one bit set, which the local
-- capabilities have too.
pub record IsAcceptable (config : List ℕ) (c : Choices) : Type 0 where
  pub size : length config ≡ 6
  pub ot : OnlyBit config object_type c.ot
  pub ot_supported : get capabilities c.ot ≡ true
  pub sf : OnlyBit config sampling_frequency c.sf
  pub sf_supported : get capabilities c.sf ≡ true
  pub ch : OnlyBit config channels c.ch
  pub ch_supported : get capabilities c.ch ≡ true

-- The local limits, computed: no limit on the bit rate, and a variable one is supported.
pub capabilities_limits :
    (length capabilities ≡ 6)
    × (get_range capabilities bitrate_range ≡ 0)
    × (get capabilities vbr_supported ≡ true)
unfolding capabilities get_range get_bit
capabilities_limits = (refl, refl, refl)

check_bitrate_lem : (config : List ℕ) → check_bitrate config ≡ accepted tt
unfolding check_bitrate
check_bitrate_lem config =
    let (six, limit, vbr) = capabilities_limits in rw (limit, vbr) (ground arith)

accepts :
    (config : List ℕ) (c : Choices)
    → IsAcceptable config c
    → parse_configuration config ≡ accepted (aac_parameters config c.ot c.sf c.ch)
unfolding parse_configuration
accepts config c h =
    let (six, limit, vbr) = capabilities_limits in
    let ot = (find_active_bit_iff config object_type c.ot).1 h.ot in
    let sf = (find_active_bit_iff config sampling_frequency c.sf).1 h.sf in
    let ch = (find_active_bit_iff config channels c.ch).1 h.ch in
    rw (h.size, six, ot, h.ot_supported, sf, h.sf_supported, ch, h.ch_supported)
      (rw (check_bitrate_lem config))

accepted_by :
    (config : List ℕ) (p : AacParameters)
    → parse_configuration config ≡ accepted p
    → (c : Choices) × IsAcceptable config c × (p ≡ aac_parameters config c.ot c.sf c.ch)
unfolding parse_configuration
accepted_by config p e =
    let (six, limit, vbr) = capabilities_limits in
    let (size, e₁) = guard-accepted _ _ _ e in
    let (ot, ot_e, e₂) = found-accepted _ _ _ e₁ in
    let (ot_l, e₃) = guard-accepted _ _ _ e₂ in
    let (sf, sf_e, e₄) = found-accepted _ _ _ e₃ in
    let (sf_l, e₅) = guard-accepted _ _ _ e₄ in
    let (ch, ch_e, e₆) = found-accepted _ _ _ e₅ in
    let (ch_l, e₇) = guard-accepted _ _ _ e₆ in
    let (rate, e₈) = then-accepted _ _ e₇ in
    (
      record { ot = ot; sf = sf; ch = ch },
      record {
        size = (==_iff _ _).0 size ∙ six;
        ot = (find_active_bit_iff config object_type ot).0 ot_e;
        ot_supported = ot_l;
        sf = (find_active_bit_iff config sampling_frequency sf).0 sf_e;
        sf_supported = sf_l;
        ch = (find_active_bit_iff config channels ch).0 ch_e;
        ch_supported = ch_l;
      },
      sym (accepted-injective e₈),
    )

-- The AAC parser accepts exactly the vectors of six bytes whose object type, sampling frequency and
-- channels each have one bit set, which the local capabilities have too, and reads their values; no bit
-- rate, variable or not, is refused.
pub parse_configuration_iff :
    (config : List ℕ) (p : AacParameters)
    → (parse_configuration config ≡ accepted p)
      ↔ ((c : Choices) × IsAcceptable config c × (p ≡ aac_parameters config c.ot c.sf c.ch))
parse_configuration_iff config p =
    (accepted_by config p, λ (c, h, e). accepts config c h ∙ ap accepted (sym e))
