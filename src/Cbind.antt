-- ===== src/Cbind.antt =====
-- The C examples of the binding, cbind/examples of the repository: programs that drive nodes
-- through the generated interface `libp2p.h`, which is a parameter.
pub mod Binding
pub mod Program
pub mod Waiters
pub mod Peerstore
pub mod Kad
pub mod Echo
pub mod Relay
pub mod Metrics
pub mod Gossipsub
pub mod ServiceDisco
pub mod MobileCheck
pub mod Contexts
pub mod Status
pub mod Examples
pub mod Liveness
mod Tests
pub mod Waits
pub mod Bounds
