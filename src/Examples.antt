-- ===== src/Examples.antt =====
-- Tests of the definitions at concrete inputs, and instances of the theorems.
mod Hub
mod Livestream
mod Live
mod Log
mod Sps
mod Store
mod Login
mod Matroska
mod Recorder
mod Retention
mod Upload
mod Pictures
mod Recovery
