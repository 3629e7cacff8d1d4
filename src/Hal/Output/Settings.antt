-- ===== src/Hal/Output/Settings.antt =====
-- bluetooth/audio/hw/stream_apis.cc: `out_set_parameters` and `out_get_parameters`. The names of the system's
-- parameters are those of its audio header, a record `Keys`; the results of the calls are not used by
-- the source.
use Prim.Native.String.{String}
use text.Mathlib.Text.{◌==◌ as str_eq}
use android_device_peter_gsi.Base.{
  ◌≡◌, refl, ap, ◌∙◌, inl, inr, arith, Bool, true, false, ◌&&◌, ◌||◌, Option, none, some,
  if◌then◌else◌, is_some, Bool-cases,
}
use android_device_peter_gsi.Session.Types.{SessionCodes, PcmConfiguration}
use android_device_peter_gsi.Session.Instances.{Instances}
use android_device_peter_gsi.Hal.Port.{StreamState, set_state, is_a2dp_port, in_use}
use android_device_peter_gsi.Hal.Port.Control.{stop}
use android_device_peter_gsi.Hal.Port.Data.{default_output, load_audio_config_out}
use android_device_peter_gsi.Hal.Params.{Params, find_param}
use android_device_peter_gsi.Hal.Output.{
  StreamOut, State, PortEnv, is_state, shut_down, suspend_a2dp, resume_a2dp,
}

pub record Keys : Type 0 where
  pub sup_sampling_rates : String
  pub sup_channels : String
  pub sup_formats : String
  pub closing : String
  pub exiting : String

abbrev pub has_param : String → Params → Bool
has_param key params = is_some (find_param key params)

-- The value of a key is a text.
abbrev pub is_value : Option String → String → Bool
is_value none text = false
is_value (some value) text = str_eq value text

abbrev pub wants_config : Keys → Params → Bool
wants_config keys params =
    has_param keys.sup_sampling_rates params
    || has_param keys.sup_channels params
    || has_param keys.sup_formats params

module _ (codes : SessionCodes) (default_pcm : PcmConfiguration) (keys : Keys) where
  unfoldable pub reload_config : State → State
  unfolding load_audio_config_out
  reload_config (s, m) =
      let (m', (config, loaded)) =
        load_audio_config_out codes default_pcm s.port m default_output in
      if loaded
      then (
        record s {
          sample_rate = config.sample_rate;
          channel_mask = config.channel_mask;
          format = config.format;
        },
        m',
      )
      else (s, m')

  unfoldable pub set_a2dp_suspended : PortEnv → Params → State → State
  unfolding suspend_a2dp resume_a2dp is_a2dp_port find_param
  set_a2dp_suspended env params (s, m) =
      let value = find_param "A2dpSuspended" params in
      if is_some value && is_a2dp_port s.port
      then (if is_value value "true"
          then suspend_a2dp codes env (s, m)
          else resume_a2dp codes (s, m))
      else (s, m)

  -- `LeAudioSuspended` is looked up and logged, and nothing is done.
  unfoldable pub out_set_parameters : PortEnv → Params → State → State
  unfolding reload_config set_a2dp_suspended shut_down
  out_set_parameters env params state =
      let configured = if wants_config keys params then reload_config state else state in
      let a2dp = set_a2dp_suspended env params configured in
      let closed =
        if is_value (find_param keys.closing params) "true"
        then shut_down codes env.answer a2dp
        else a2dp in
      if is_value (find_param keys.exiting params) "1"
      then shut_down codes env.answer closed
      else closed

  -- A stream that is disabled, with no frames rendered.
  abbrev pub IsOff : State → Type 0
  IsOff (s, m) = (is_state s StreamState.disabled ≡ true) × (s.frames_rendered ≡ 0)

  reload_config-same :
      (s : StreamOut) (m : Instances)
      → let s' = (reload_config (s, m)).0 in
        (s'.port ≡ s.port) × (s'.frames_rendered ≡ s.frames_rendered)
  unfolding reload_config
  reload_config-same s m = ground arith

  suspend_a2dp-IsOff :
      (env : PortEnv) (s : StreamOut) (m : Instances)
      → in_use codes s.port ≡ true
      → IsOff (suspend_a2dp codes env (s, m))
  unfolding suspend_a2dp stop set_state
  suspend_a2dp-IsOff env s m used = ground (arith, used)

  shut_down-IsOff :
      (answer : Bool) (state : State) → IsOff state → IsOff (shut_down codes answer state)
  unfolding shut_down
  shut_down-IsOff answer (s, m) h = rw h.0 h

  closed-IsOff :
      (b : Bool) (answer : Bool) (state : State)
      → IsOff state
      → IsOff (if b then shut_down codes answer state else state)
  closed-IsOff true answer state h = shut_down-IsOff answer state h
  closed-IsOff false answer state h = h

  is_value-some : (o : Option String) (text : String) → is_value o text ≡ true → is_some o ≡ true
  is_value-some none text h = cc
  is_value-some (some v) text h = refl

  configured-same :
      (b : Bool) (s : StreamOut) (m : Instances)
      → let s' = (if b then reload_config (s, m) else (s, m)).0 in s'.port ≡ s.port
  configured-same true s m = (reload_config-same s m).0
  configured-same false s m = refl

  set_a2dp_suspended-IsOff :
      (env : PortEnv) (params : Params) (s : StreamOut) (m : Instances)
      → in_use codes s.port ≡ true
      → is_a2dp_port s.port ≡ true
      → is_value (find_param "A2dpSuspended" params) "true" ≡ true
      → IsOff (set_a2dp_suspended env params (s, m))
  unfolding set_a2dp_suspended
  set_a2dp_suspended-IsOff env params s m used a2dp asked =
      let present = is_value-some (find_param "A2dpSuspended" params) "true" asked in
      rw present (rw a2dp (rw asked (suspend_a2dp-IsOff env s m used)))

  set_a2dp_suspended-ignored :
      (env : PortEnv) (params : Params) (state : State)
      → is_a2dp_port state.0.port ≡ false
      → set_a2dp_suspended env params state ≡ state
  unfolding set_a2dp_suspended
  set_a2dp_suspended-ignored env params (s, m) other =
      elim (Bool-cases (is_some (find_param "A2dpSuspended" params))) [
        | inl present ↦ rw present (rw other refl)
        | inr absent ↦ rw absent refl
      ]

  -- `A2dpSuspended=true`, with any other parameters, leaves the stream of an A2DP port that is in use
  -- disabled, with no frames rendered, whatever state it was in, whatever the stack answers, and whatever
  -- callbacks come meanwhile.
  pub out_set_parameters-IsOff :
      (env : PortEnv) (params : Params) (s : StreamOut) (m : Instances)
      → in_use codes s.port ≡ true
      → is_a2dp_port s.port ≡ true
      → is_value (find_param "A2dpSuspended" params) "true" ≡ true
      → let s' = (out_set_parameters env params (s, m)).0 in
        (is_state s' StreamState.disabled ≡ true) × (s'.frames_rendered ≡ 0)
  unfolding out_set_parameters
  out_set_parameters-IsOff env params s m used a2dp asked =
      let configured : State = if wants_config keys params then reload_config (s, m) else (s, m) in
      let same = configured-same (wants_config keys params) s m in
      let used' = ap (in_use codes) same ∙ used in
      let a2dp' = ap is_a2dp_port same ∙ a2dp in
      let off = set_a2dp_suspended-IsOff env params configured.0 configured.1 used' a2dp' asked in
      closed-IsOff (is_value (find_param keys.exiting params) "1") env.answer _
        (closed-IsOff (is_value (find_param keys.closing params) "true") env.answer _ off)

  -- For a port that is not one of A2DP, parameters that neither ask for the configuration nor close the
  -- stream nor exit change nothing: no value of `LeAudioSuspended` does anything.
  pub out_set_parameters-ignored :
      (env : PortEnv) (params : Params) (state : State)
      → is_a2dp_port state.0.port ≡ false
      → wants_config keys params ≡ false
      → is_value (find_param keys.closing params) "true" ≡ false
      → is_value (find_param keys.exiting params) "1" ≡ false
      → out_set_parameters env params state ≡ state
  unfolding out_set_parameters
  out_set_parameters-ignored env params state other plain unclosed staying =
      rw plain (rw unclosed (rw staying (set_a2dp_suspended-ignored env params state other)))
