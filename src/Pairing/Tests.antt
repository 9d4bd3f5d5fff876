-- ===== src/Pairing/Tests.antt =====
-- The theorems on the package `pairing`, at concrete contacts and sessions.
mod Books
mod Sessions
