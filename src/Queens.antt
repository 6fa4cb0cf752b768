-- ===== src/Queens.antt =====
-- The n-queens service and its client, example/nqueen.
pub mod Board
pub mod Server
pub mod Client
pub mod Spec
pub mod Brute
pub mod Safe
pub mod Count
pub mod Answer
pub mod Local
pub mod Distribute
pub mod Failures
pub mod Main
pub mod Balance
pub mod Address
