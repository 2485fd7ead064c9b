-- ===== src/Daemon/Serve/Reloading.antt =====
-- server/device_d.cpp: a reload signal while the configuration file has an error.
use device.Map.{number_key}
use device.Server.{Server}
