-- ===== src/Lib.antt =====
-- Verification of the camera player's servers.
--
-- The repository holds two servers on top of asio: a WebSocket server (include/server/ws,
-- src/server/ws) and an RTSP camera server (include/ai-camera, src/rtp, src/rtsp), with an HTTP server
-- beside them. This library models the WebSocket protocol (the handshake, the bytes of a frame, and the
-- session that reads, answers and writes frames), the RTSP session with its requests and states, and the
-- way of a video: a file cut into NAL units and frames, each unit cut into RTP packets, given headers,
-- written to the RTSP connection as interleaved frames, and taken off such a connection. It models the
-- HTTP server's parser, router, responses and sessions too. SHA-1 and Base64, which the WebSocket
-- handshake uses, are modelled by themselves. The WebSocket server's table of sessions and the RTP media
-- session, which hands packets to its clients' transports, join the parts.
--
-- Files, and the code that each is about:
--   Http/Parser        include/server/http/http_parser.hpp and src/server/http/http_parser.cpp: Request,
--                      Parser::feed (feed) and its parts. Loop has the loop over the header lines, Chunks
--                      a request that comes in parts.
--   Http/Response      include/server/http/http_response.hpp and src/server/http/http_response.cpp.
--   Http/Router        include/server/http/router.hpp and src/server/http/router.cpp; Dispatch is about
--                      routes that are added.
--   Http/Connection    include/server/http/session.hpp and src/server/http/session.cpp: do_read, do_write.
--   Rtp/RawH264        include/ai-camera/rtp/rawh264source.h and src/rtp/rawh264source.cpp: Open, Close,
--                      ReadNextFrame, ExtractNALUnits. Extract is about the units, Frames about frames.
--   Rtp/NalSource      src/rtp/nalsource.cpp: the tests on NAL types.
--   Rtp/Packet         include/ai-camera/rtp/rtp.h and media.h: RtpPacket, NALFrame.
--   Rtp/H264           src/rtp/h264source.cpp: HandleFrame, one packet or FU-A fragments. Fragments has the
--                      packets as a list, Receiver a receiver as RFC 6184 describes it, Bounds the sizes.
--   Rtp/Transport      src/rtp/rtptransport.cpp: FillRtpHeader, SendRtpPacket; src/rtp/rtpsender.cpp:
--                      AsioTcpRtpSender::Send.
--   Rtp/Senders        include/ai-camera/rtp/rtpsender.h and src/rtp/rtpsender.cpp: the three senders, as
--                      what they put out.
--   Rtp/Channels       include/ai-camera/rtp/rtptransport.h and src/rtp/rtptransport.cpp: the two channels of
--                      a transport, their set-up, SetPlaying, Start, Stop, GetRtpInfo; Timer has OnTimer. Machine has
--                      the calls and callbacks as a step relation, Live and Playing the timers.
--   Rtp/MediaSession   include/ai-camera/rtp/mediasession.h and src/rtp/mediasession.cpp: AddSource, AddClient,
--                      RemoveClient, DispatchToClients, HandleFrame, StartMulticast, GenerateSdpMessage.
--                      Generate has the SDP text, Deliver the way of a packet; Clients, Dispatch,
--                      Copies, Video and Sdp have the proofs.
--   Rtp/MulticastAddress  MulticastAddress of the same header.
--   Rtp/H264/Description  src/rtp/h264source.cpp: GetMediaDescription, GetAttribute.
--   Rtsp/Interleaved   src/rtsp/rtspsession.cpp: ProcessInterleavedData. Stream, Video and Sending
--                      compose it with the sending side.
--   Rtsp/Protocol      include/ai-camera/rtsp/rtsp.h and src/rtsp/rtsp.cpp: RtspProtocol.
--   Rtsp/Session       include/ai-camera/rtsp/rtspsession.h and src/rtsp/rtspsession.cpp: the fields,
--                      HandleOptions, HandleDescribe, HandlePlay, HandlePause, HandleTeardown, SendSpsPps.
--     Setup            HandleSetup, parseRangeNum.
--     Requests         HandleRtspRequest, OnBytes.
--     Media            LoadVideoFile, FeedNextNALFrame, ProduceNextPacket; src/rtp/h264source.cpp:
--                      GetMediaDescription, GetAttribute.
--     Consistent, Keeping, Reachable  what holds of every session that a client's bytes lead to.
--     Transitions, Answers            the state machine, and the one answer to a request.
--     Channels         the channels of RTP over TCP in SETUP.
--     Production       the units of a loaded file. Frames has which packets it gives, in a circle.
--   Ws/Handshake       include/server/ws/ws_handshake.hpp: ParseHttpRequest, IsWebSocketUpgrade,
--                      NegotiateSubProtocol, ComputeAcceptKey, BuildHandshakeResponse. Request and
--                      Negotiate have the proofs.
--   Ws/Sha1            include/ws/sha1.h and src/ws/sha1.cpp: Update, Final, ProcessBlock, Hash. Update
--                      takes the bytes one at a time, Padding has the padding of RFC 3174.
--   Ws/Base64          src/ws/sha1.cpp: Base64Encode, with a decoder of its own.
--   Prelude            Boolean tests, lists and bytes over the native numbers; Prelude/Bits joins bytes,
--                      Prelude/Text has strings and maps from strings, Prelude/Numbers numbers in text,
--                      Prelude/Lines lines and words that are read back.
--   Ws/Types           include/server/ws/ws_types.hpp: OpCode, Message, SessionOptions.
--   Ws/CloseCode       the close codes of the same file.
--   Ws/Frame           include/server/ws/ws_frame.hpp: ParseHeader (parse_header), ApplyMask
--                      (apply_mask), EncodeServerFrame (encode_server_frame). Wire has the layout of
--                      RFC 6455 as a description of its own; Accepted, Refused, Encode and Mask hold
--                      the proofs.
--   Ws/Session         include/server/ws/ws_session.hpp and src/server/ws/ws_session.cpp:
--     State            the fields, SendText, SendBinary, SendPing, Close, EnqueueFrame, DoClose.
--     Send             the closure of EnqueueFrame, DoWrite and its completion handler.
--     Receive          OnFrameData, ProcessFrameBuffer, HandleControlFrame, HandleDataFrame,
--                      DeliverMessage. One round of the loop is the function round. Frames and Handled
--                      are about whole frames of a client, Assembly about messages.
--     Heartbeat        ArmHeartbeatTimer, OnHeartbeatTimer.
--     Upgrade          DoReadHandshake; Upgraded is about its branches.
--     Machine          the callbacks of one session as a step relation.
--     Effects, Order   what each callback leaves alone, and the order of the frames that are sent; Front is
--                      about the write under way.
--     Closing, Answers how a session ends, and what it answers.
--   Ws/Server          include/server/ws/ws_server.hpp and src/server/ws/ws_server.cpp: Start, Stop, DoAccept,
--                      AddSession, RemoveSession, the broadcasts. Machine runs it with its sessions; Table,
--                      Live and Tracked are about its table, Broadcast about the broadcasts.
--   Tools              tools/gen_test_h264.cpp, the generator of a test video: BitWriter has the bits
--                      (Writers and the end of BitWriter are about its buffer), NalWriter write_nal, and
--                      TestVideo build_sps, build_pps, build_idr_slice and main.
--
-- How the code is modelled. A session is a record of its fields, with what asio holds for it: the
-- closures posted to the strand (posted), the writes under way (pending), the armed timer. Effects on the
-- outside are a log of events, oldest first. The application is a record of handlers (Handlers), each an
-- arbitrary function from the session to public calls, which run where the code calls the handler. The
-- clock is an argument of each callback that reads it. asio runs one callback of a session at a time;
-- which one comes next is open in the step relation. Bytes are numbers, below 256 where IsByte says so;
-- uint64_t arithmetic wraps at 2 ^ 64.
--
-- On the RTP side the array of a new packet is not initialised, so what it holds is an argument, and the
-- callback or socket that packets go to is a step on a state of its own.
--
-- Strings are bytes, and a std::map or std::unordered_map from strings is a list in the order of its
-- keys. A conversion of text to a number that throws makes the handler's result none: what the state is
-- behind an exception is not modelled. Of the RTP transport an RTSP session keeps what it sets on it.
--
-- Loops that are not structural take fuel: that of HandleFrame the size of the frame, those of
-- ProcessInterleavedData and ProcessFrameBuffer the bytes of the buffer, as each frame takes at least
-- four or two, those of Update and Final the bytes of the input and 64, that of ExtractNALUnits the bytes
-- of the file, as each round takes one or more. All of these are shown to be enough. The loop over HTTP
-- header lines has the bytes left as fuel, each line taking one or more, and to_string a number plus one.
--
-- A media session keeps its clients' transports in a store that it does not own, and a WebSocket server
-- keeps every session it made in a list, as asio's callbacks hold it; their tables have places there. A
-- timer is the interval it waits for and the handlers that are ready, each of which may have been cancelled.
--
-- Not modelled: the asio library and its sockets, the random session identifiers and masking keys, the
-- logging, the threads, and the listeners of the RTSP and the HTTP server.
pub mod Http
pub mod Prelude
pub mod Rtp
pub mod Rtsp
pub mod Ws
pub mod Tools
