-- ===== src/Tests.antt =====
-- The theorems at concrete inputs, by the part of the program that they are about.
mod Breaker
mod Caching
mod Requests
mod Paging
mod Limits
mod Pipeline
mod Stores
mod Endpoints
