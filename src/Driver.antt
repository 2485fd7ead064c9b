-- ===== src/Driver.antt =====
-- The drivers of server/drv_*.cpp.
pub mod Factory
pub mod Test
pub mod Objects
pub mod Utils
pub mod Modbus
pub mod Hm310t
pub mod Spp
pub mod Serial
pub mod Setup
pub mod Usbtmc
pub mod Net
pub mod Presets
pub mod Gpib
pub mod Vxi
