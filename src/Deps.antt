-- ===== src/Deps.antt =====
-- The packages that the server calls and that the repository does not hold, as interfaces: the
-- operations that the code uses and what their documentation says of them. Each is a parameter of
-- the definitions that use it. `Models` shows that the interfaces can be met.
mod Maps
mod Clients
mod Buckets
pub mod Counting
pub mod Models
pub use Maps.{DashMap, lookup}
pub use Clients.{Relay}
pub use Buckets.{Rater}

pub record Deps : Type 1 where
  pub dashmap : DashMap
  pub open dashmap use *
  pub relay : Relay
  pub open relay use *
  pub rater : Rater
  pub open rater use *
