-- ===== src/Modem/AtDriver/Tests.antt =====
-- Contexts that the modem lists again, and the commands that define them.
use sim_connectivity_monitor.Prelude.{
  ◌≡◌, refl, true, false, [], ◌∷◌, Text, codes, map, List, arith,
}
use sim_connectivity_monitor.Config.Schema.{PdpContext, ipv4, ipv4v6, no_auth, pap}
use sim_connectivity_monitor.Modem.Reconcile.{reconcile}
use sim_connectivity_monitor.Modem.AtParser.Contexts.{parse_cgdcont}
use sim_connectivity_monitor.Modem.AtDriver.{define_pdp_context}
use sim_connectivity_monitor.Modem.AtDriver.Relisted.{listed, reconcile-relisted}

abbrev internet : PdpContext
internet = record {
  cid = 1;
  apn = codes "iot";
  pdp_type = ipv4v6;
  auth = no_auth;
  username = [];
  password = [];
  bearer = true;
}

abbrev management : PdpContext
management = record internet {
  cid = 12;
  apn = codes "m2m";
  pdp_type = ipv4;
  auth = pap;
  username = codes "u";
  bearer = false;
}

define_management :
    define_pdp_context management
    ≡ (codes "AT+CGDCONT=12,\"IP\",\"m2m\"") ∷ (codes "AT+CGAUTH=12,1,\"u\",\"\"") ∷ []
unfolding define_pdp_context
define_management = refl

abbrev rows : List (PdpContext × Text)
rows = (internet, codes ",\"0.0.0.0\",0,0") ∷ (management, []) ∷ []

reconcile-relisted_example :
    reconcile (parse_cgdcont (map listed rows)) (map (λ (row : PdpContext × Text). row.0) rows) ≡ []
reconcile-relisted_example = reconcile-relisted rows (ground arith)
