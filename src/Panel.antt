-- ===== src/Panel.antt =====
-- The control panel, panel/src.
pub mod Template
pub mod Dialog
pub mod Device
