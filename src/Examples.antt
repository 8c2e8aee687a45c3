-- ===== src/Examples.antt =====
-- Concrete inputs on which the theorems are applied, by the part of the program.
mod Bitmaps
mod Bencoding
mod Wires
mod Tables
mod PeerIds
mod Trackers
mod Managers
mod Storing
mod Saving
mod Rounds
mod Queries
mod Tasks
