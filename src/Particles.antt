-- ===== src/Particles.antt =====
-- web/src/particles.ts
pub mod Sweep
pub mod Turns
pub mod Sweeping
pub mod Sparks
pub mod Lives
