-- ===== src/Logistics.antt =====
-- src/modules/logistics: the life of a delivery leg (`Leg`), the catching up with a courier's report
-- (`Reach`), the choice of a courier (`Routing`, `Serves`) and of a vehicle (`Vehicle`).
pub mod Leg
pub mod Reach
pub mod Routing
pub mod Serves
pub mod Vehicle
mod Tests
