-- ===== src/Lib.antt =====
-- A library on the Bluetooth audio part of an Android device: bluetooth/audio. The Bluetooth stack opens a
-- provider (bluetooth/audio/hal), which agrees on a codec and starts a session
-- (bluetooth/audio/utils/aidl_session); the audio HAL (bluetooth/audio/hw) registers observers with the
-- session, controls its stream and moves PCM bytes through its message queue.
--
-- Files:
--   Base          names of the libraries, tests on numbers, lists, laws of bits, signed integers.
--   A2dp/Bits     bluetooth/audio/hal/A2dpBits.h: `get` is `get_bit` and `get_range`, `set` is `set_bit`
--                 and `set_range`; a vector is the list of its bytes. Bits/Field, Bits/Laws, Bits/Active
--                 and Bits/Several hold the laws.
--   A2dp/Codec    what the codecs of bluetooth/audio/hal share: statuses, parameters, the result of a
--                 parser, and the choice of the first common bit (Codec/Choice).
--   A2dp/Sbc      bluetooth/audio/hal/A2dpOffloadCodecSbc.cpp: the constructor is `capabilities` and
--                 `info`; ParseConfiguration is Sbc/Configuration, BuildConfiguration is Sbc/Build.
--                 Sbc/Overflow has GetFrameSize and GetBitrate in 32-bit arithmetic. Sbc/Parsing,
--                 Sbc/Rates, Sbc/Overflow, Sbc/Common, Sbc/Vector, Sbc/Bitpools and Sbc/Negotiation hold
--                 the laws.
--   A2dp/Aac      bluetooth/audio/hal/A2dpOffloadCodecAac.cpp, in the same way: Aac/Configuration and
--                 Aac/Build, with the laws in Aac/Parsing, Aac/Common and Aac/Negotiation.
--   A2dp/Factory  bluetooth/audio/hal/A2dpOffloadCodecFactory.cpp: GetCodec is `get_codec`,
--                 GetConfiguration is `get_configuration`; Factory/Outcomes holds the laws.
--   Provider      bluetooth/audio/hal/BluetoothAudioProvider.cpp; Provider/A2dp is
--                 bluetooth/audio/hal/A2dpOffloadAudioProvider.cpp and A2dpSoftwareAudioProvider.cpp;
--                 Provider/Hfp is bluetooth/audio/hal/HfpSoftwareAudioProvider.cpp and
--                 HfpOffloadAudioProvider.cpp, with their laws; Provider/LeAudio is
--                 bluetooth/audio/hal/LeAudioSoftwareAudioProvider.cpp and HearingAidAudioProvider.cpp, with
--                 the law in LeAudio/Outcome;
--                 Provider/Codecs is bluetooth/audio/utils/aidl_session/BluetoothAudioCodecs.cpp, with
--                 the law in Codecs/Validity; Provider/Opening is
--                 bluetooth/audio/hal/BluetoothAudioProviderFactory.cpp, where openProvider is
--                 `open_provider`, with the laws in Opening/Outcome. Provider/Lifecycle holds the other
--                 laws.
--   Session       bluetooth/audio/utils/aidl_session/BluetoothAudioSession.h and .cpp: the data and the
--                 cookies are Session/Types, the observers Session/Observers, the state with its start
--                 and end Session/State, the functions of the audio HAL and the reports of the stack
--                 Session/Control, the PCM loops Session/Transfer. Session/Cookies,
--                 Session/Registration, Session/Invariant, Session/Readiness and Session/Latency hold
--                 the laws. Session/Instances is the map of sessions, with the static functions of
--                 bluetooth/audio/utils/aidl_session/BluetoothAudioSessionControl.h and
--                 BluetoothAudioSessionReport.h in Instances/Control and Instances/Report;
--                 Instances/Refinement, Instances/Calls and Instances/Outcomes hold the laws.
--   Hal/Port      bluetooth/audio/hw/device_port_proxy.h and .cc: SetUp, TearDown and the callbacks are in
--                 Port itself, Start, Suspend, Stop and CondwaitState in Port/Control, the configuration
--                 and the data path in Port/Data, which has their law, the metadata in Port/Metadata, with
--                 the law in Metadata/Tags. Port/Sameness, Port/Diagram, Port/Runs, Port/Disabled,
--                 Port/Confirmation, Port/Registration and Port/Lifetime hold the other laws.
--   Hal/Params    bluetooth/audio/hw/utils.cc.
--   Hal/Output    bluetooth/audio/hw/stream_apis.h and .cc, output streams: out_standby, out_pause and
--                 out_resume are in Output itself; out_write is in Output/Write, the latency and the
--                 positions in Output/Position, the parameters in Output/Settings, each with its laws;
--                 opening and closing are Output/Opening, with laws in Output/Lifetime and
--                 Output/Closing. Output/Frames has the counters over a run.
--   Hal/Input     the same source, input streams; Input/Reading and Input/Opening, with the law of opening
--                 in Input/Outcome.
--   Examples      A2dp/Examples, Provider/Examples, Provider/Codecs/Examples, Provider/LeAudio/Examples,
--                 Provider/Opening/Examples, Session/Examples, Session/Instances/Examples, Hal/Examples,
--                 Hal/StreamExamples and Hal/Port/Metadata/Examples run the definitions on concrete inputs;
--                 Session/Numbers has data for them.
--
-- Each handler of a session holds its lock from the first line to the last, so it is a function of the
-- state, and a run is a sequence of such calls; callbacks and calls of the stack's binder object are
-- returned as lists. The PCM loops release the lock between rounds: what a round meets is a poll, given as a
-- function of the number of the round.
--
-- A stream of the audio HAL owns a port, which registers callbacks with the session of its type and waits
-- for them. What other threads do in that time is an argument: the callbacks that run while the stack is
-- called, and those before each time the waiting thread looks again; the end of that list is the timeout.
-- The waits of an input stream have the callbacks of each millisecond as a function of its number.
--
-- Fuel: the PCM loops run on the bytes asked for, the timeout of 1000 ms and one more; every round moves a
-- byte or waits 1 ms, so this is enough for every sequence of polls. All other loops are structural.
--
-- Parameters: the numbers of the enum SessionType, the number that stands for the metadata of the tracks,
-- the default PcmConfiguration and the fields of an A2DP configuration, which the build generates from the
-- AIDL interface, and what the binder objects and the message queue answer; the system's frame sizes,
-- parameter names and size of tags, its clock, and the Split of android-base; what is read from the files of
-- LE audio, and the product of doubles that is the size of a queue of LE audio. The checks of
-- bluetooth/audio/utils/aidl_session/BluetoothAudioCodecs.cpp are arguments of the A2DP providers;
-- Provider/Codecs has the check of offload configurations, and Provider/Hfp that of PCM ones.
--
-- Not modelled: logging, the conversion of legacy metadata by a session, the functions of a stream that log
-- and return a constant, the text that out_get_parameters prints, the samples that a port mixes into mono,
-- the functions of a provider that only answer with an error, the offload provider of LE audio, the HIDL
-- twins of the session and of the port, the readers of XML and JSON files, and audio/hal, init and cmds. A
-- sample rate of 0, by which the source would divide, is not ruled out in the configuration of a session;
-- nothing is said of it.
pub mod Base
pub mod A2dp
pub mod Hal
pub mod Session
pub mod Provider
