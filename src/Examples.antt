-- ===== src/Examples.antt =====
-- A small world to try the development in: toy cryptography that keeps the documented laws, two
-- instances, and the toy codecs and files of one of them.
pub mod World
pub mod Plans
pub mod Talk
pub mod Dispatching
pub mod Lobes
pub mod Messages
pub mod Handling
pub mod Directory
pub mod Blobs
