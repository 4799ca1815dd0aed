-- ===== src/Tools.antt =====
-- tools/gen_test_h264.cpp: the generator of a test video.
pub mod BitWriter
pub mod NalWriter
pub mod TestVideo
pub mod Writers
mod Examples
