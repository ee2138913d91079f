-- ===== src/Anland.antt =====
-- The output of the Anland backend, in src/backend/anland: the buffers that the display service
-- shares with it, and its frames.
pub mod Store
pub mod Slots
pub mod Frames
pub mod Link
