-- ===== src/Rtp.antt =====
-- The RTP side of the camera server: include/ai-camera/rtp and src/rtp.
pub mod Packet
pub mod H264
pub mod Transport
pub mod Senders
pub mod Channels
pub mod MulticastAddress
pub mod MediaSession
pub mod RawH264
pub mod NalSource
