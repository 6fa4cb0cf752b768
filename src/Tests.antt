-- ===== src/Tests.antt =====
-- The theorems at concrete inputs, and tests of the definitions.
mod Data
mod Queens
mod Logic
mod System
mod Traffic
mod Co
mod Chat
mod Http
mod Whole
mod Beast
mod Echo
mod Client
mod Hello
