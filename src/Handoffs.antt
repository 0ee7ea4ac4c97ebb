-- ===== src/Handoffs.antt =====
-- src/modules/handoffs: the codes by which a handover is confirmed (`Codes`), and what the
-- staff of a Node are shown (`Counter`), and the services that confirm a step (`Confirm`).
pub mod Codes
pub mod Counter
pub mod Confirm
mod Tests
