-- ===== src/Rtsp.antt =====
-- The RTSP side of the camera server: include/ai-camera/rtsp and src/rtsp.
pub mod Interleaved
pub mod Protocol
pub mod Session
