-- ===== src/Modem/OtaSms/Classes.antt =====
-- src/sim_monitor/modem/ota_sms.py: which messages are traffic for the SIM.
use sim_connectivity_monitor.Prelude.{
  ℕ, ◌+◌, ◌*◌, ◌%◌, ◌<◌, ◌≡◌, ◌≢◌, ◌↔◌, ◌⊎◌, false, none, some, List, any, ◌==◌, arith,
}
use sim_connectivity_monitor.Modem.OtaSms.{message_class, reasons, classify_ota}

-- An octet names the SIM (class 2) exactly in the groups 00x1 and 01x1 and in the group 1111, with
-- 10 in its two low bits.
pub message_class-sim :
    (group low : ℕ)
    → group < 16
    → low < 16
    → (message_class (group * 16 + low) ≡ some 2)
      ↔ (low % 4 ≡ 2 × ((group < 8 × group % 2 ≡ 1) ⊎ group ≡ 15))
unfolding message_class
message_class-sim group low h k = ground arith

-- A message is left to the inbox exactly if none of the four signs is there.
pub classify_ota-none :
    (pid dcs : ℕ) (udh_ieis : List ℕ)
    → (classify_ota pid dcs udh_ieis ≡ none) ↔ (
        pid ≢ 127
        × pid ≢ 124
        × any (λ i. i == 112) udh_ieis ≡ false
        × any (λ i. i == 113) udh_ieis ≡ false
        × message_class dcs ≢ some 2)
unfolding classify_ota reasons
classify_ota-none pid dcs udh_ieis = ground arith
