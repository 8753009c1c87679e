-- ===== src/Recorder.antt =====
-- internal/recording/recorder.go and internal/recording/recover.go: the recorder of a camera.
pub mod Segments
pub mod Steps
pub mod Takes
pub mod Sound
pub mod Files
pub mod Names
pub mod Rotation
pub mod Recover
pub mod Recovery
pub mod Clearing
