-- ===== src/A2dp/Sbc/Negotiation.antt =====
-- A configuration that SBC builds, read back by its own parser and by the remote side.

use android_device_peter_gsi.Base.{
  ℕ, ◌+◌, ◌≤◌, Option, none, some, List, ◌≡◌, sym, ◌∙◌, arith, true, subst,
}
use android_device_peter_gsi.A2dp.Bits.{Range, get, get_range, find_active_bit}
use android_device_peter_gsi.A2dp.Bits.Active.{find_active_bit_iff, find_active_bit-Agree}
use android_device_peter_gsi.A2dp.Codec.{CodecParameters, accepted}
use android_device_peter_gsi.A2dp.Sbc.{
  sampling_frequency, channel_mode, block_length, subbands, allocation_method, maximum_bitpool,
}
use android_device_peter_gsi.A2dp.Sbc.Configuration.{parse_configuration}
use android_device_peter_gsi.A2dp.Sbc.Parsing.{
  IsAcceptable, parameters, capabilities_limits, parse_configuration-accepts,
}
use android_device_peter_gsi.A2dp.Sbc.Build.{
  hint_bitpools, bitpools, select_bitpool, Choices, chosen, build_configuration,
}
use android_device_peter_gsi.A2dp.Sbc.Common.{AreCommon, build_configuration-cases}
use android_device_peter_gsi.A2dp.Sbc.Vector.{chosen-IsVector, chosen-Fields}
use android_device_peter_gsi.A2dp.Sbc.Bitpools.{
  remote_bitpools_bounds, bitpools_bounds, select_bitpool-IsVector, select_bitpool-Agree,
  select_bitpool-low, select_bitpool-high,
}

-- What is built from common choices is an acceptable configuration with those choices.
select_bitpool-IsAcceptable :
    (rcaps : List ℕ) (hint : Option CodecParameters) (c : Choices)
    → AreCommon rcaps c
    → IsAcceptable (select_bitpool rcaps hint (chosen c)) c
select_bitpool-IsAcceptable rcaps hint c h =
    let v = chosen c in
    let w = select_bitpool rcaps hint v in
    let vector = chosen-IsVector c in
    let fields = chosen-Fields rcaps c h in
    let agree = select_bitpool-Agree rcaps hint v vector in
    let only =
      λ (r : Range) (b : ℕ) (before : r.first + r.len ≤ 16) (found : find_active_bit v r ≡ some b).
        (find_active_bit_iff w r b).0 (find_active_bit-Agree r w v (agree r before) ∙ found) in
    let bounds = bitpools_bounds rcaps hint v in
    record {
      size = (select_bitpool-IsVector rcaps hint v vector).size;
      sf = only sampling_frequency c.sf (omega arith) fields.sf;
      sf_supported = h.sf_common.0;
      cm = only channel_mode c.cm (omega arith) fields.cm;
      cm_supported = h.cm_common.0;
      bl = only block_length c.bl (omega arith) fields.bl;
      sb = only subbands c.sb (omega arith) fields.sb;
      sb_supported = h.sb_common.0;
      am = only allocation_method c.am (omega arith) fields.am;
      am_supported = h.am_common.0;
      low = rw (select_bitpool-low rcaps hint v vector) bounds.0;
      high = rw (select_bitpool-high rcaps hint v vector) bounds.1;
    }

-- Whatever SBC builds, its own parser accepts, with parameters read from bits that the remote
-- capabilities have.
pub build_configuration-parse :
    (rcaps : List ℕ) (hint : Option CodecParameters) (config : List ℕ)
    → build_configuration rcaps hint ≡ some config
    → (c : Choices) × (parse_configuration config ≡ accepted (parameters config c))
      × (get rcaps c.sf ≡ true)
      × (get rcaps c.cm ≡ true)
      × (get rcaps c.bl ≡ true)
      × (get rcaps c.sb ≡ true)
      × (get rcaps c.am ≡ true)
build_configuration-parse rcaps hint config e =
    let (c, h, built) = build_configuration-cases rcaps hint config e in
    (
      c,
      parse_configuration-accepts config c
          (subst (λ w. IsAcceptable w c) (sym built) (select_bitpool-IsAcceptable rcaps hint c h)),
      h.sf_common.1,
      h.cm_common.1,
      h.bl_common.1,
      h.sb_common.1,
      h.am_common.1,
    )

-- Without a hint the maximum bitpool is 250, whatever maximum the remote capabilities state.
pub build_configuration-maximum_bitpool :
    (rcaps : List ℕ) (config : List ℕ)
    → build_configuration rcaps none ≡ some config
    → get_range config maximum_bitpool ≡ 250
unfolding bitpools hint_bitpools
build_configuration-maximum_bitpool rcaps config e =
    let (c, h, built) = build_configuration-cases rcaps none config e in
    let (four, least, most) = capabilities_limits in
    rw built (
      select_bitpool-high rcaps none (chosen c) (chosen-IsVector c)
      ∙ omega (arith, remote_bitpools_bounds rcaps, most))
