-- ===== src/Readdir.antt =====
-- A directory from the server's filler to the client's `filldir`.
pub mod Encode
pub mod Decode
pub mod Loop
pub mod EndToEnd
pub mod Room
pub mod Reference
pub mod Fuel
