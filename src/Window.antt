-- ===== src/Window.antt =====
-- src/core/rel4u_window.h and src/core/rel4u_window.c: the sliding windows.
pub mod Index
pub mod Send
pub mod Recv
pub mod Fresh
mod Tests
