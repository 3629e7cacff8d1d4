-- ===== src/A2dp/Factory.antt =====
-- bluetooth/audio/hal/A2dpOffloadCodecFactory.cpp: the ranking of the codecs, and the choice of a codec and
-- its configuration for the capabilities of a remote device. The virtual functions of a codec are
-- dispatched on `OffloadCodec`. The configuration is written through a pointer and means something only
-- when the function returns true, so `configured` holds it.
pub mod Outcomes
use android_device_peter_gsi.Base.{
  ℕ, Bool, true, false, not, Option, none, some, List, [], ◌∷◌, ◌==◌, if◌then◌else◌,
}
use android_device_peter_gsi.Base.Maybe.{◌>>=◌}
use android_device_peter_gsi.A2dp.Codec.{A2dpStatus, CodecParameters, Parsed, accepted, rejected}
use android_device_peter_gsi.A2dp.Sbc.Configuration as SbcConfiguration
use android_device_peter_gsi.A2dp.Sbc.Build as SbcBuild
use android_device_peter_gsi.A2dp.Aac.Configuration as AacConfiguration
use android_device_peter_gsi.A2dp.Aac.Build as AacBuild

-- `CodecId` is generated: the two that the code names, and any other by a number.
pub data CodecId : Type 0 where
  aac sbc : CodecId
  other : ℕ → CodecId

abbrev pub same_id : CodecId → CodecId → Bool
same_id aac aac = true
same_id sbc sbc = true
same_id (other m) (other n) = m == n
same_id _ _ = false

pub data OffloadCodec : Type 0 where
  aac_codec sbc_codec : OffloadCodec

abbrev pub id_of : OffloadCodec → CodecId
id_of aac_codec = aac
id_of sbc_codec = sbc

-- The constructor: AAC before SBC.
abbrev pub ranked_codecs : List OffloadCodec
ranked_codecs = aac_codec ∷ sbc_codec ∷ []

pub record A2dpRemoteCapabilities : Type 0 where
  pub id : CodecId
  pub seid : ℕ
  pub capabilities : List ℕ

pub record A2dpConfigurationHint : Type 0 where
  pub codec_id : CodecId
  pub codec_parameters : Option CodecParameters

pub record A2dpConfiguration : Type 0 where
  pub id : CodecId
  pub remote_seid : ℕ
  pub configuration : List ℕ
  pub parameters : CodecParameters

-- What `GetConfiguration` does: returns true or false, fails its assertion, or reads the element at the
-- end of the codecs.
pub data Selection : Type 0 where
  configured : A2dpConfiguration → Selection
  failed asserted undefined : Selection

-- `BuildConfiguration` and `ParseConfiguration` of a codec.
unfoldable pub build : OffloadCodec → List ℕ → Option CodecParameters → Option (List ℕ)
build aac_codec rcaps hint = AacBuild.build_configuration rcaps hint
build sbc_codec rcaps hint = SbcBuild.build_configuration rcaps hint

abbrev aac_codec_parameters : Parsed AacConfiguration.AacParameters → Parsed CodecParameters
aac_codec_parameters (accepted p) = accepted p.codec
aac_codec_parameters (rejected s) = rejected s

abbrev sbc_codec_parameters : Parsed SbcConfiguration.SbcParameters → Parsed CodecParameters
sbc_codec_parameters (accepted p) = accepted p.codec
sbc_codec_parameters (rejected s) = rejected s

unfoldable pub parse : OffloadCodec → List ℕ → Parsed CodecParameters
parse aac_codec config = aac_codec_parameters (AacConfiguration.parse_configuration config)
parse sbc_codec config = sbc_codec_parameters (SbcConfiguration.parse_configuration config)

-- `GetCodec`, on a list of codecs.
unfoldable pub find_codec : CodecId → List OffloadCodec → Option OffloadCodec
find_codec id [] = none
find_codec id (c ∷ cs) = if same_id id (id_of c) then some c else find_codec id cs

unfoldable pub get_codec : CodecId → Option OffloadCodec
unfolding find_codec
get_codec id = find_codec id ranked_codecs

-- The `copy_if` of the codecs that are not the hinted one.
unfoldable pub codecs_but : OffloadCodec → List OffloadCodec → List OffloadCodec
codecs_but hinted [] = []
codecs_but hinted (c ∷ cs) =
    if same_id (id_of c) (id_of hinted) then codecs_but hinted cs else c ∷ codecs_but hinted cs

unfoldable pub find_remote : CodecId → List A2dpRemoteCapabilities → Option A2dpRemoteCapabilities
find_remote id [] = none
find_remote id (rc ∷ rcs) = if same_id id rc.id then some rc else find_remote id rcs

abbrev pub select_parsed :
    OffloadCodec → A2dpRemoteCapabilities → List ℕ → Parsed CodecParameters → Selection
select_parsed codec rc config (accepted p) =
    configured
      (record { id = id_of codec; remote_seid = rc.seid; configuration = config; parameters = p })
select_parsed codec rc config (rejected s) = asserted

-- The body of the loop: `none` is `continue`.
unfoldable pub attempt :
    List A2dpRemoteCapabilities → Option CodecParameters → OffloadCodec → Option Selection
unfolding find_remote
attempt remotes parameters codec = do
  rc ← find_remote (id_of codec) remotes
  config ← build codec rc.capabilities parameters
  some (select_parsed codec rc config (parse codec config))

abbrev pub or_else : Option Selection → Selection → Selection
or_else none rest = rest
or_else (some selection) rest = selection

unfoldable pub select_first :
    List A2dpRemoteCapabilities → Option CodecParameters → List OffloadCodec → Selection
select_first remotes parameters [] = failed
select_first remotes parameters (c ∷ cs) =
    or_else (attempt remotes parameters c) (select_first remotes parameters cs)

abbrev pub select_hinted :
    List A2dpRemoteCapabilities → Option CodecParameters → Option OffloadCodec → Selection
select_hinted remotes parameters none = undefined
select_hinted remotes parameters (some c) =
    select_first remotes parameters (c ∷ codecs_but c ranked_codecs)

-- If no codec has the hinted id, the predicate of `copy_if` reads the end of the codecs.
unfoldable pub get_configuration : List A2dpRemoteCapabilities → A2dpConfigurationHint → Selection
unfolding get_codec select_first codecs_but
get_configuration remotes hint =
    select_hinted remotes hint.codec_parameters (get_codec hint.codec_id)
