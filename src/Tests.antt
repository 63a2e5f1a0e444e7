-- ===== src/Tests.antt =====
-- The theorems at concrete inputs, with small stand-ins for the code that the repository does not hold.
mod Doubles
mod Server
mod Clock
mod Counters
mod Ceremonies
mod Formats
mod Store
mod Storage
mod Http
mod Service
mod Conf
mod Compat
mod Admin
mod Tool
