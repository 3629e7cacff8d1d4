-- ===== src/A2dp/Sbc/Parsing.antt =====
-- Which configurations the SBC parser accepts, and what it makes of them.
use android_device_peter_gsi.Base.{
  ℕ, ap, ◌≤◌, List, ◌≡◌, refl, sym, ◌↔◌, ◌∙◌, arith, length, true, ==_iff,
}
use android_device_peter_gsi.A2dp.Bits.{get, get_range}
use android_device_peter_gsi.A2dp.Bits.Active.{OnlyBit, find_active_bit_iff}
use android_device_peter_gsi.A2dp.Codec.{
  accepted, accepted-injective, guard-accepted, found-accepted, then-accepted,
}
use android_device_peter_gsi.A2dp.Sbc.{
  sampling_frequency, channel_mode, block_length, subbands, allocation_method, minimum_bitpool,
  maximum_bitpool, capabilities,
}
use android_device_peter_gsi.A2dp.Sbc.Configuration.{
  SbcParameters, sbc_parameters, check_bitpools, parse_configuration,
}
use android_device_peter_gsi.A2dp.Sbc.Build.{Choices}

-- A vector of four bytes in which each of the first five fields has one bit set, which the local
-- capabilities have too (the block length is not compared), and whose bitpools lie from 2 to 250.
pub record IsAcceptable (config : List ℕ) (c : Choices) : Type 0 where
  pub size : length config ≡ 4
  pub sf : OnlyBit config sampling_frequency c.sf
  pub sf_supported : get capabilities c.sf ≡ true
  pub cm : OnlyBit config channel_mode c.cm
  pub cm_supported : get capabilities c.cm ≡ true
  pub bl : OnlyBit config block_length c.bl
  pub sb : OnlyBit config subbands c.sb
  pub sb_supported : get capabilities c.sb ≡ true
  pub am : OnlyBit config allocation_method c.am
  pub am_supported : get capabilities c.am ≡ true
  pub low : (2 ≤ get_range config minimum_bitpool) × (get_range config minimum_bitpool ≤ 250)
  pub high : (2 ≤ get_range config maximum_bitpool) × (get_range config maximum_bitpool ≤ 250)

abbrev pub parameters : List ℕ → Choices → SbcParameters
parameters config c =
    sbc_parameters config c.sf c.cm c.bl c.sb c.am (get_range config minimum_bitpool)
      (get_range config maximum_bitpool)

-- The local limits, computed.
pub capabilities_limits :
    (length capabilities ≡ 4)
    × (get_range capabilities minimum_bitpool ≡ 2)
    × (get_range capabilities maximum_bitpool ≡ 250)
unfolding capabilities get_range
capabilities_limits = (refl, refl, refl)

check_bitpools_iff :
    (low high : ℕ)
    → (check_bitpools low high ≡ accepted tt)
      ↔ (((2 ≤ low) × (low ≤ 250)) × ((2 ≤ high) × (high ≤ 250)))
unfolding check_bitpools
check_bitpools_iff low high =
    let (four, least, most) = capabilities_limits in (λ e. ground arith, λ h. ground arith)

pub parse_configuration-accepts :
    (config : List ℕ) (c : Choices)
    → IsAcceptable config c
    → parse_configuration config ≡ accepted (parameters config c)
unfolding parse_configuration
parse_configuration-accepts config c h =
    let (four, least, most) = capabilities_limits in
    let sf = (find_active_bit_iff config sampling_frequency c.sf).1 h.sf in
    let cm = (find_active_bit_iff config channel_mode c.cm).1 h.cm in
    let bl = (find_active_bit_iff config block_length c.bl).1 h.bl in
    let sb = (find_active_bit_iff config subbands c.sb).1 h.sb in
    let am = (find_active_bit_iff config allocation_method c.am).1 h.am in
    rw
      (
        h.size, four, sf, h.sf_supported, cm, h.cm_supported, bl, sb, h.sb_supported, am,
        h.am_supported,
      )
      (rw ((check_bitpools_iff _ _).1 (h.low, h.high)))

parse_configuration-accepted :
    (config : List ℕ) (p : SbcParameters)
    → parse_configuration config ≡ accepted p
    → (c : Choices) × IsAcceptable config c × (p ≡ parameters config c)
unfolding parse_configuration
parse_configuration-accepted config p e =
    let (four, least, most) = capabilities_limits in
    let (size, e₁) = guard-accepted _ _ _ e in
    let (sf, sf_e, e₂) = found-accepted _ _ _ e₁ in
    let (sf_l, e₃) = guard-accepted _ _ _ e₂ in
    let (cm, cm_e, e₄) = found-accepted _ _ _ e₃ in
    let (cm_l, e₅) = guard-accepted _ _ _ e₄ in
    let (bl, bl_e, e₆) = found-accepted _ _ _ e₅ in
    let (sb, sb_e, e₇) = found-accepted _ _ _ e₆ in
    let (sb_l, e₈) = guard-accepted _ _ _ e₇ in
    let (am, am_e, e₉) = found-accepted _ _ _ e₈ in
    let (am_l, e₁₀) = guard-accepted _ _ _ e₉ in
    let (pools, e₁₁) = then-accepted _ _ e₁₀ in
    let (low, high) = (check_bitpools_iff _ _).0 pools in
    (
      record { sf = sf; cm = cm; bl = bl; sb = sb; am = am },
      record {
        size = (==_iff _ _).0 size ∙ four;
        sf = (find_active_bit_iff config sampling_frequency sf).0 sf_e;
        sf_supported = sf_l;
        cm = (find_active_bit_iff config channel_mode cm).0 cm_e;
        cm_supported = cm_l;
        bl = (find_active_bit_iff config block_length bl).0 bl_e;
        sb = (find_active_bit_iff config subbands sb).0 sb_e;
        sb_supported = sb_l;
        am = (find_active_bit_iff config allocation_method am).0 am_e;
        am_supported = am_l;
        low = low;
        high = high;
      },
      sym (accepted-injective e₁₁),
    )

-- The SBC parser accepts exactly the vectors of four bytes whose first five fields each have one bit set,
-- which but for the block length the local capabilities have too, and whose bitpools lie from 2 to 250,
-- and reads the values of their fields.
pub parse_configuration-IsAcceptable :
    (config : List ℕ) (p : SbcParameters)
    → (parse_configuration config ≡ accepted p)
      ↔ ((c : Choices) × IsAcceptable config c × (p ≡ parameters config c))
parse_configuration-IsAcceptable config p = (
  parse_configuration-accepted config p,
  λ (c, h, e). parse_configuration-accepts config c h ∙ ap accepted (sym e),
)
