-- ===== src/Tests.antt =====
-- The theorems at concrete inputs, and tests that run the functions.
mod Words
mod Formats
mod Heaps
mod Tables
mod Stores
mod Lists
mod Forwards
mod Moves
