-- ===== src/Daemon/Once.antt =====
-- How often the thread of src/lwip-ptp.c gets to the cases INITIALIZING and FAULTY of `doState`.
use ptpd_lwip.Types.System.{System}
