-- ===== src/Modem/Reconcile/Tests.antt =====
-- A run of the reconciliation, and its theorems on concrete tables.
use sim_connectivity_monitor.Prelude.{◌≡◌, refl, true, [], ◌∷◌, codes, dict_get}
use sim_connectivity_monitor.Config.Schema.{PdpContext, ipv4, no_auth}
use sim_connectivity_monitor.Modem.Reconcile.{
  ActualPdpContext, delete_context, define_context, reconcile, by_cid,
}
use sim_connectivity_monitor.Modem.Reconcile.Exact.{Agrees, table, perform_all, reconcile_exact}

abbrev data_context : PdpContext
data_context = record {
  cid = 1;
  apn = codes "hologram";
  pdp_type = ipv4;
  auth = no_auth;
  username = [];
  password = [];
  bearer = true;
}

abbrev left_over : ActualPdpContext
left_over = record { cid = 2; pdp_type = codes "IPv4"; apn = codes "ims" }

first_run :
    reconcile (left_over ∷ []) (data_context ∷ [])
    ≡ delete_context 2 ∷ define_context data_context ∷ []
unfolding reconcile
first_run = refl

reconcile_exact_example :
    Agrees
      (perform_all (table (left_over ∷ [])) (reconcile (left_over ∷ []) (data_context ∷ [])) 1)
      (dict_get 1 (by_cid (data_context ∷ [])))
reconcile_exact_example = reconcile_exact (left_over ∷ []) (data_context ∷ []) 1
