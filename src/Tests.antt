-- ===== src/Tests.antt =====
-- The theorems at concrete inputs.
mod Data
mod Yenc
mod Connection
mod Talk
mod Pool
mod Usenet
mod Fileset
mod Main
mod Order
mod Loop
mod Escape
mod Config
mod Program
mod DummyServer
