-- ===== src/Core/States.antt =====
-- src/sim_monitor/core/states.py.
use sim_connectivity_monitor.Prelude.{Bool, true, false}

pub data State : Type 0 where
  no_modem modem_found sim_ready configuring connecting connected degraded fallback_test : State

-- `a is b`.
abbrev pub state_eq : State → State → Bool
state_eq no_modem no_modem = true
state_eq modem_found modem_found = true
state_eq sim_ready sim_ready = true
state_eq configuring configuring = true
state_eq connecting connecting = true
state_eq connected connected = true
state_eq degraded degraded = true
state_eq fallback_test fallback_test = true
state_eq _ _ = false
