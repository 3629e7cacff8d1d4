-- ===== src/Provider/A2dp.antt =====
-- bluetooth/audio/hal/A2dpOffloadAudioProvider.cpp and bluetooth/audio/hal/A2dpSoftwareAudioProvider.cpp: the
-- checks before a session starts, and what is done when it is ready. What the fields of an `a2dp`
-- configuration are is given by `a2dp_fields`; the checks of bluetooth/audio/utils/aidl_session/
-- BluetoothAudioCodecs.cpp are arguments.
use android_device_peter_gsi.Base.{
  ℕ, Bool, true, false, Option, none, some, List, [], if◌then◌else◌,
}
use android_device_peter_gsi.A2dp.Codec.{Parsed, CodecParameters, accepted, rejected}
use android_device_peter_gsi.A2dp.Factory.{CodecId, OffloadCodec, parse, get_codec}
use android_device_peter_gsi.Session.Types.{
  SessionType, AudioConfiguration, pcm_config, a2dp, a2dp_config, PcmConfiguration, LatencyMode,
  DataMq,
}
use android_device_peter_gsi.Session.State.{Session, mq_valid, on_session_started}
use android_device_peter_gsi.Provider.{Provider, Reply, OnSessionReady, start_session, refuse}

-- The constructors, for the session type of the derived class.
unfoldable pub new_provider : SessionType → Option DataMq → Provider
new_provider t mq = record {
  session_type = t;
  stack_iface = none;
  audio_config = none;
  latency_modes = [];
  data_mq = if mq_valid mq then mq else none;
}

abbrev pub is_accepted : Parsed CodecParameters → Bool
is_accepted (accepted p) = true
is_accepted (rejected s) = false

abbrev pub parses : Option OffloadCodec → List ℕ → Bool
parses none config = false
parses (some codec) config = is_accepted (parse codec config)

-- `onSessionReady` of the offload provider: the session has no queue.
unfoldable pub on_session_ready_offload : OnSessionReady
on_session_ready_offload p config s =
    (on_session_started s p.stack_iface none config p.latency_modes, none)

abbrev handle_of : Option DataMq → Option ℕ
handle_of none = none
handle_of (some mq) = some mq.handle

-- `onSessionReady` of the software provider: a duplicate of the queue's descriptor.
unfoldable pub on_session_ready_software : OnSessionReady
on_session_ready_software p config s =
    if mq_valid p.data_mq
    then (on_session_started s p.stack_iface p.data_mq config p.latency_modes, handle_of p.data_mq)
    else ((s, []), none)

module _ (a2dp_fields : ℕ → CodecId × List ℕ)
    (is_offload_codec_configuration_valid : SessionType → ℕ → Bool) where
  -- The checks of `A2dpOffloadAudioProvider::startSession`.
  unfoldable pub is_valid_offload : SessionType → AudioConfiguration → Bool
  is_valid_offload t (a2dp n) =
      let (id, configuration) = a2dp_fields n in parses (get_codec id) configuration
  is_valid_offload t (a2dp_config n) = is_offload_codec_configuration_valid t n
  is_valid_offload t _ = false

  unfoldable pub start_session_offload :
      Provider → Session → Option ℕ → AudioConfiguration → List LatencyMode → Reply
  start_session_offload p s host_if config modes =
      if is_valid_offload p.session_type config
      then start_session on_session_ready_offload p s host_if config modes
      else refuse p s

module _ (is_software_pcm_configuration_valid : PcmConfiguration → Bool) where
  -- The checks of `A2dpSoftwareAudioProvider::startSession`.
  unfoldable pub is_valid_software : AudioConfiguration → Bool
  is_valid_software (pcm_config pcm) = is_software_pcm_configuration_valid pcm
  is_valid_software _ = false

  unfoldable pub start_session_software :
      Provider → Session → Option ℕ → AudioConfiguration → List LatencyMode → Reply
  start_session_software p s host_if config modes =
      if is_valid_software config
      then start_session on_session_ready_software p s host_if config modes
      else refuse p s
