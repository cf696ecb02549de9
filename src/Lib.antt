-- ===== src/Lib.antt =====
-- gopbx, a voice gateway in Go: a client opens a WebSocket, sends commands (invite, tts, play,
-- interrupt, hangup, ...) and audio, and gets events back. This library models the parts that decide
-- something: the call session and its manager, the command router, the audio processors (voice
-- activity detection, speech recognition, their chain), the tracks, the codecs, the protocol types, the
-- providers of speech, the HTTP endpoints (calls, ICE servers, language model), the call records and
-- their storage, the configuration, and the client of the Go SDK.
--
-- How the parts interact. internal/adapter/inbound/http/call_handler.go checks the first command of a
-- connection, creates a session in the manager, answers, and from then on passes every command to the
-- router, which changes the session (current track, command log) and returns events and, at times, a
-- request to close. Audio goes through the processor chain, whose detector holds audio back until it
-- is sure that somebody speaks, and whose recognizer sends it on to a provider. Cleanup finalizes the
-- session and takes it out of the manager, and a call record is written.
--
-- Which file models what:
--   Prelude.antt, Prelude/*      numbers, lists, integers, strings (not code of the program)
--   Codec/Pcm, Codec/Resample    internal/app/media/codec/codec.go: pcmBytesToSamples,
--                                pcmSamplesToBytes, ResamplePCM16LE
--   Codec/MuLaw, Codec/ALaw      internal/app/media/codec/pcmu.go and pcma.go
--   Protocol/Event               pkg/wsproto/event.go, internal/compat/event_compat.go
--   Protocol/Command             pkg/wsproto/command.go, internal/compat/command_compat.go,
--                                internal/adapter/inbound/ws/command_decoder.go
--   Media/Packet                 internal/domain/media/entity.go, processor/result.go
--   Media/Buffer, Media/Window   bufferedAudio and activityWindow of processor/vad.go
--   Media/Vad, Media/Vad/*       the detector of processor/vad.go: State, Segment and Process hold
--                                the code, New the constructor, the others what is proved
--   Media/Asr, AsrLaws, AsrSends processor/asr.go
--   Media/Chain, ChainLaws       processor/chain.go, recorder.go, denoise.go and
--                                internal/app/media/stream/stream.go
--   Media/Track                  internal/app/media/track/tts_track.go and file_track.go
--   Media/WebRtc, WebRtcLaws, PlaybackLaws
--                                internal/app/media/track/webrtc_track.go around its peer connection
--   Codec/Names                  the names of codecs, in codec.go
--   Protocol/Writer              the writing of events until one write fails
--   Provider/Tts, Provider/Asr   internal/adapter/outbound/tts/provider.go and mock.go, asr/provider.go
--   Provider/AliyunAsr, AliyunTts, and their Laws
--                                internal/adapter/outbound/asr/aliyun.go and tts/aliyun.go: the session
--                                and the stream, as steps of the goroutines that share them
--   Provider/ChunkQueue          what a stream of a synthesis promises
--   Provider/AliyunConfig, AliyunConfigLaws
--                                their configuration, and the results of the recognition
--   Provider/AliyunCallbacks     the callbacks of the recognition
--   Provider/AliyunStart, AliyunStartLaws, AliyunWriteLaws
--                                their StartSynthesis, waitCompletion and WriteAudio
--   Provider/MockAsr             asr/mock.go, and the choice of a session
--   Provider/VadScorer, VadScorerLaws
--                                internal/adapter/outbound/vad/scorer.go
--   Provider/NativeScorer, NativeScorerLaws
--                                internal/adapter/outbound/vad/native_linux.go: the constructor, Close
--   Provider/NativeRun, NativeScore, Windows, NativeRunLaws, NativeScoreLaws
--                                its runChunk and Score, and how Score cuts samples into windows
--   Gateway/Http, HttpLaws       requests and replies of net/http, and the headers
--   Gateway/Ice, IceLaws         internal/adapter/outbound/ice/restsend.go, the handler's ice_handler.go
--   Gateway/LlmProxy, LlmProxyLaws
--                                internal/adapter/outbound/llm/openai_proxy.go
--   Gateway/Admin, AdminLaws     the handler's admin_handler.go; internal/middleware/accesslog.go
--   Gateway/Silero               internal/adapter/outbound/vad/silero_http.go
--   Storage/Writers, Laws        internal/adapter/outbound/storage
--   Media/Negotiation, NegotiationLaws
--                                internal/app/media/track/webrtc_track.go: BuildAnswer
--   Session/State, Lifecycle     internal/app/session/session.go: the methods, and what holds of them
--   Session/Track, TrackLaws     its StartTrack, ClearTrack and formatTrackSeq
--   Session/Manager, ManagerLaws, OrderLaws
--                                internal/app/session/manager.go and cleanup.go
--   Session/Registry, RegistryLaws, Listing, GoneLaws
--                                the registry under the steps of all goroutines, and the list of calls
--   Session/Router, RouterLaws   internal/app/session/command_router.go
--   Call/Handler, HandlerLaws    internal/adapter/inbound/http/call_handler.go: the loop of serveWS
--   Call/Setup, Serve            what stands around the loop, from the connection to the call record
--   Call/KeepLaws                what a close request and a command keep, the loop keeps
--   Call/LiveLaws, ServeLaws     what holds of a session until its cleanup, and of a whole call
--   Call/Audio, AudioLaws        its buildAudioStream, and track/websocket_track.go
--   Call/Talk, TalkLaws, EndLaws, LoopLaws, KillLaws
--                                the loop with the audio of the call and with kills, and the end of it
--   Call/Records                 internal/app/callrecord, and the event writer of the handler
--   Call/Archive                 calls one after the other, the records they leave, and their writer
--   Call/SessionId               the handler's newSessionID
--   Session/Snapshot             its Snapshot
--   Config/Load, LoadLaws        internal/config/config.go: Load
--   Config, Config/Laws          internal/config/config.go and validate.go
--   Metrics, Metrics/Laws        internal/observability/metrics.go
--   Sdk/Client, Calls, ClientLaws
--                                sdk/go/client.go and types.go
--   Tests/*                      the theorems and the definitions at concrete inputs
-- (processor/ is internal/app/media/processor/.) A field or a method of the source keeps its name in
-- snake_case; an imported package's name is dropped.
--
-- State is passed explicitly. A method that runs under a mutex is one step; what it does to the
-- outside (a callback, a closed channel) is part of its result. Where several goroutines call the
-- methods of one object, a theorem is about every sequence of these steps: so Call/Talk interleaves the
-- handler, the reader of the remote track and kills, as a list says. Of the Aliyun clients, a
-- method is cut into its locked sections and channel operations, and each of these is a step.
--
-- Integers. Samples are ℤ within int16, bytes and samples' codes are ℕ below 256 or 65536, and the
-- wrap-around of conversions is written out. Durations and limits of the detector are ℕ: the source
-- has int there, and the values are sums of packet durations, far below 2 ^ 63. A limit above
-- 2 ^ 63 - 1 wraps around in `NewVAD` and is then no limit (`int_of_uint64`). Floats are a record
-- parameter (`Media.Floats`): no theorem depends on what they compute. The voice probability, which a
-- scorer outside this code gives, and the clock are inputs of every step.
--
-- Strings are lists of character codes. TrimSpace and ToLower are modelled for ASCII.
--
-- The loops of the source go over a slice and are recursion on a list. Two definitions run on fuel:
-- `digits_from` of Session/Track, with the number that it prints, which is enough since every round
-- divides the number by ten; and `scan_from` of Provider/NativeScore, with one more than the number of
-- samples, which is enough since every round goes on by a window.
--
-- Not modelled: sockets, HTTP, the peer connection of WebRTC, the SDK of Aliyun, JSON, ONNX Runtime,
-- the file system, logging and start-up, which are I/O or other people's code. Where the code uses
-- them, they are parameters or inputs of the definitions. What a recognition emits while a call goes on
-- (`emit_result`) is modelled by itself and not as a step of the call; the goroutine that drains RTCP
-- and the default HTTP client of the SDK decide nothing.
pub mod Prelude
pub mod Codec
pub mod Protocol
pub mod Media
pub mod Provider
pub mod Session
pub mod Call
pub mod Config
pub mod Gateway
pub mod Metrics
pub mod Sdk
pub mod Storage
mod Tests
