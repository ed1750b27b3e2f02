-- ===== src/SaveData.antt =====
-- inferno_driver/savedata.h and savedata.cpp: class CSaveData, which records a stream in a file.
pub mod State
pub mod Frames
pub mod Cases
pub mod Stream
pub mod Framing
pub mod Files
pub mod Items
pub mod Recording
pub mod Serve
pub mod Turns
pub mod Playback
pub mod Setup
pub mod Headers
pub mod Wave
pub mod Session
pub mod Closing
pub mod Resize
pub mod Lifetime
mod Tests
