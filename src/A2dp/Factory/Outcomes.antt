-- ===== src/A2dp/Factory/Outcomes.antt =====
-- What the factory selects.
use android_device_peter_gsi.Base.{
  ℕ, ◌≡◌, refl, sym, ap, ◌∙◌, ◌⊎◌, inl, inr, Option, none, some, List, [], ◌∷◌, Option-cases,
}
use android_device_peter_gsi.Base.Maybe.{>>=-eq-some, some_cancel}
use android_device_peter_gsi.A2dp.Codec.{CodecParameters, accepted}
use android_device_peter_gsi.A2dp.Sbc.Negotiation.{build_configuration-parse}
use android_device_peter_gsi.A2dp.Aac.Negotiation.{build_configuration-parse_configuration}
use android_device_peter_gsi.A2dp.Aac.Configuration.{aac_parameters}
use android_device_peter_gsi.A2dp.Sbc.Parsing.{parameters}
use android_device_peter_gsi.A2dp.Factory.{
  OffloadCodec, aac_codec, sbc_codec, id_of, A2dpRemoteCapabilities, A2dpConfigurationHint,
  A2dpConfiguration, Selection, configured, failed, build, parse, get_codec, find_remote, attempt,
  select_parsed, select_first, get_configuration,
}

-- Each codec accepts what it builds.
build-parse :
    (c : OffloadCodec) (rcaps config : List ℕ) (hint : Option CodecParameters)
    → build c rcaps hint ≡ some config
    → (p : CodecParameters) × (parse c config ≡ accepted p)
unfolding build parse
build-parse aac_codec rcaps config hint e =
    let built = build_configuration-parse_configuration rcaps hint config e in
    ((aac_parameters config (built.0).ot (built.0).sf (built.0).ch).codec, rw (built.1) refl)
build-parse sbc_codec rcaps config hint e =
    let built = build_configuration-parse rcaps hint config e in
    ((parameters config built.0).codec, rw (built.1) refl)

-- A configuration of the codec for the first remote capabilities with its id.
pub record IsFor (remotes : List A2dpRemoteCapabilities) (hint : Option CodecParameters)
    (c : OffloadCodec) (a : A2dpConfiguration) : Type 0 where
  pub remote : A2dpRemoteCapabilities
  pub found : find_remote (id_of c) remotes ≡ some remote
  pub id : a.id ≡ id_of c
  pub seid : a.remote_seid ≡ remote.seid
  pub built : build c remote.capabilities hint ≡ some a.configuration
  pub parsed : parse c a.configuration ≡ accepted a.parameters

attempt-IsFor :
    (remotes : List A2dpRemoteCapabilities) (hint : Option CodecParameters) (c : OffloadCodec)
    (s : Selection)
    → attempt remotes hint c ≡ some s
    → (a : A2dpConfiguration) × (s ≡ configured a) × IsFor remotes hint c a
unfolding attempt
attempt-IsFor remotes hint c s e =
    let (rc, rc_e, e₁) = >>=-eq-some _ _ e in
    let (config, config_e, e₂) = >>=-eq-some _ _ e₁ in
    let (p, parsed) = build-parse c rc.capabilities config hint config_e in
    let a : A2dpConfiguration = record {
      id = id_of c;
      remote_seid = rc.seid;
      configuration = config;
      parameters = p;
    } in
    (
      a,
      sym (some_cancel e₂) ∙ ap (select_parsed c rc config) parsed,
      record {
        remote = rc;
        found = rc_e;
        id = refl;
        seid = refl;
        built = config_e;
        parsed = parsed;
      },
    )

-- The loop over two codecs.
two-outcomes :
    (remotes : List A2dpRemoteCapabilities) (hint : Option CodecParameters) (c d : OffloadCodec)
    → let s = select_first remotes hint (c ∷ d ∷ []) in
      ((a : A2dpConfiguration) × (s ≡ configured a) × IsFor remotes hint c a)
      ⊎ ((attempt remotes hint c ≡ none)
          × (a : A2dpConfiguration) × (s ≡ configured a)
          × IsFor remotes hint d a)
      ⊎ ((attempt remotes hint c ≡ none) × (attempt remotes hint d ≡ none) × (s ≡ failed))
unfolding select_first
two-outcomes remotes hint c d = elim (Option-cases (attempt remotes hint c)) [
  | inr (s, e) ↦ let (a, s_e, for) = attempt-IsFor remotes hint c s e in inl (a, rw e s_e, for)
  | inl e ↦ elim (Option-cases (attempt remotes hint d)) [
    | inr (s, e') ↦
        let (a, s_e, for) = attempt-IsFor remotes hint d s e' in
        inr (inl (e, a, rw e (rw e' s_e), for))
    | inl e' ↦ inr (inr (e, e', rw e (rw e' refl)))
  ]
]

abbrev pub alternative : OffloadCodec → OffloadCodec
alternative aac_codec = sbc_codec
alternative sbc_codec = aac_codec

-- For a hint that names a codec of the factory, `get_configuration` never fails its assertion and never
-- reads past its codecs. It has one of three outcomes: a configuration of the hinted codec; if the hinted
-- codec has none, a configuration of the other one; failure, if neither has one. A configuration is
-- one that the codec builds for the first remote capabilities with its id and reads back.
pub get_configuration-outcome :
    (remotes : List A2dpRemoteCapabilities) (hint : A2dpConfigurationHint) (c : OffloadCodec)
    → get_codec hint.codec_id ≡ some c
    → let s = get_configuration remotes hint in
      let p = hint.codec_parameters in
      let d = alternative c in
      ((a : A2dpConfiguration) × (s ≡ configured a) × IsFor remotes p c a)
      ⊎ ((attempt remotes p c ≡ none)
          × (a : A2dpConfiguration) × (s ≡ configured a)
          × IsFor remotes p d a)
      ⊎ ((attempt remotes p c ≡ none) × (attempt remotes p d ≡ none) × (s ≡ failed))
unfolding get_configuration
get_configuration-outcome remotes hint aac_codec e =
    rw e (two-outcomes remotes hint.codec_parameters aac_codec sbc_codec)
get_configuration-outcome remotes hint sbc_codec e =
    rw e (two-outcomes remotes hint.codec_parameters sbc_codec aac_codec)
