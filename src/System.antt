-- ===== src/System.antt =====
-- How the processors work together: what one of them stores, and what another reads of it.
mod Launch
mod CustomMask
mod Dispatch
mod Submitted
mod Tests
