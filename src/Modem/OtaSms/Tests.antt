-- ===== src/Modem/OtaSms/Tests.antt =====
-- A message for the SIM, and the theorems on it.
use sim_connectivity_monitor.Prelude.{ℕ, ◌≡◌, ◌≢◌, ◌↔◌, ◌==◌, refl, false, none, some, [], ◌∷◌, any}
use sim_connectivity_monitor.Modem.OtaSms.{sim_download, class_2, message_class, classify_ota}
use sim_connectivity_monitor.Modem.OtaSms.Classes.{classify_ota-none}

download : classify_ota 127 246 [] ≡ some (sim_download ∷ class_2 ∷ [])
unfolding classify_ota
download = refl

abbrev plain_pid : ℕ
plain_pid = 0

classify_ota-none_example : (classify_ota plain_pid 4 (112 ∷ []) ≡ none) ↔ (
    plain_pid ≢ 127
    × plain_pid ≢ 124
    × any (λ i. i == 112) (112 ∷ []) ≡ false
    × any (λ i. i == 113) (112 ∷ []) ≡ false
    × message_class 4 ≢ some 2)
classify_ota-none_example = classify_ota-none plain_pid 4 (112 ∷ [])
