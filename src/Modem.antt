-- ===== src/Modem.antt =====
-- The package src/sim_monitor/modem: the modem's contexts and its messages.
pub mod Reconcile
pub mod OtaSms
pub mod Pdu
pub mod Sms
pub mod AtParser
pub mod AtDriver
pub mod AtChannel
