-- ===== src/Debparse.antt =====
-- debparse.py: from the bytes of a .deb file to the package that they describe. Every function
-- returns, or raises one of the exceptions of Exec.antt. The archive readers are in Ar.antt, the
-- text of the control file is in Control.antt.
pub mod Ar
pub mod Control
pub mod Deb
mod Tests
