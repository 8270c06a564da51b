-- ===== src/Tests.antt =====
-- The theorems at concrete inputs.
mod Machine
mod Locks
mod Names
mod Messages
mod Rings
mod Keys
mod Memory
mod Tables
mod Images
mod Meals
mod Guests
mod Formats
mod Screens
mod Commands
mod Counters
