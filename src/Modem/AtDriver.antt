-- ===== src/Modem/AtDriver.antt =====
-- src/sim_monitor/modem/at_driver.py: the commands for the contexts of the modem, in the order in
-- which they are sent.
use sim_connectivity_monitor.Prelude.{ℕ, List, [], ◌∷◌, ◌++◌, Text, codes, decimal}
use sim_connectivity_monitor.Config.Schema.{AuthType, no_auth, pap, chap, PdpContext}
use sim_connectivity_monitor.Modem.AtParser.Contexts.{pdp_type_to_at}
pub mod Relisted
pub mod Tests

-- `{context.cid},"{pdp_type}","{context.apn}"`, and what stands behind it.
unfoldable pub context_arguments : PdpContext → Text → Text
context_arguments c rest =
    decimal c.cid
    ++ (b',' ∷ 34 ∷ (pdp_type_to_at c.pdp_type ++ (34 ∷ b',' ∷ 34 ∷ (c.apn ++ (34 ∷ rest)))))

-- `_AUTH_CODES[context.auth]`.
abbrev pub auth_code : AuthType → Text
auth_code no_auth = codes "0"
auth_code pap = codes "1"
auth_code chap = codes "2"

-- `_set_auth`.
unfoldable pub set_auth : PdpContext → Text
unfolding decimal
set_auth c =
    codes "AT+CGAUTH="
    ++ (decimal c.cid
        ++ (b','
            ∷ (auth_code c.auth
                ++ (b',' ∷ 34 ∷ (c.username ++ (34 ∷ b',' ∷ 34 ∷ (c.password ++ (34 ∷ []))))))))

abbrev pub auth_commands : AuthType → PdpContext → List Text
auth_commands no_auth c = []
auth_commands _ c = set_auth c ∷ []

-- `define_pdp_context`.
unfoldable pub define_pdp_context : PdpContext → List Text
unfolding context_arguments set_auth decimal
define_pdp_context c = (codes "AT+CGDCONT=" ++ context_arguments c []) ∷ auth_commands c.auth c

-- `delete_pdp_context`.
unfoldable pub delete_pdp_context : ℕ → List Text
unfolding decimal
delete_pdp_context cid = (codes "AT+CGDCONT=" ++ decimal cid) ∷ []
