-- ===== src/Matroska.antt =====
-- internal/matroska/writer.go: the writer of the recordings' files. Ebml has the elements, Header the
-- head of a file, and Writer the writer and its operations; the other modules prove.
pub mod Ebml
pub mod Header
pub mod Writer
pub mod Sizes
pub mod Elements
pub mod Frames
pub mod Events
pub mod Refines
pub mod Returns
