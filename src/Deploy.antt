-- ===== src/Deploy.antt =====
-- The scripts under deploy/ that change an installation.
pub mod Update
