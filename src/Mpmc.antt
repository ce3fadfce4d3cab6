-- ===== src/Mpmc.antt =====
-- src/core/rel4u_mpmc.h and src/core/rel4u_mpmc.c: the bounded queue between the threads.
pub mod Defs
pub mod Ops
pub mod Calls
pub mod Wait
pub mod Fixed
pub mod Dynamic
mod Tests
