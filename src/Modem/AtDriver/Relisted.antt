-- ===== src/Modem/AtDriver/Relisted.antt =====
-- A modem that lists the contexts as it was told to define them is read as having them.
use sim_connectivity_monitor.Prelude.{
  ℕ, ◌≡◌, refl, true, none, some, List, [], ◌∷◌, ◌++◌, map, Text, codes, All, lstrip, starts_with,
  dict_get, dict_set, get-set, Option, arith,
}
use sim_connectivity_monitor.Config.Schema.{PdpType, ipv4, ipv6, ipv4v6, PdpContext}
use sim_connectivity_monitor.Modem.Reconcile.{
  ActualPdpContext, pdp_type_text, by_cid, index_from, reconcile,
}
use sim_connectivity_monitor.Modem.Reconcile.Exact.{
  as_actual, matches-as_actual, Agrees, reconcile_settled,
}
use sim_connectivity_monitor.Modem.AtParser.Scan.{literal, comma, not_quote}
use sim_connectivity_monitor.Modem.AtParser.Fields.{number-decimal, quoted-append, lstrip-decimal}
use sim_connectivity_monitor.Modem.AtParser.Contexts.{
  pdp_type_to_at, pdp_type_of, cgdcont_of, parse_cgdcont,
}
use sim_connectivity_monitor.Modem.AtDriver.{context_arguments}

-- The line of AT+CGDCONT? with the arguments of the definition, and anything behind them.
abbrev pub listed : PdpContext × Text → Text
listed (c, rest) = codes "+CGDCONT: " ++ context_arguments c rest

-- An access point name without quotes.
abbrev pub HasPlainApn : PdpContext → Type 0
HasPlainApn c = All (λ x. not_quote x ≡ true) c.apn

plain_type : (t : PdpType) → All (λ x. not_quote x ≡ true) (pdp_type_to_at t)
plain_type ipv4 = ground arith
plain_type ipv6 = ground arith
plain_type ipv4v6 = ground arith

pdp_type_of-at : (t : PdpType) → pdp_type_of (pdp_type_to_at t) ≡ pdp_type_text t
unfolding pdp_type_of
pdp_type_of-at ipv4 = refl
pdp_type_of-at ipv6 = refl
pdp_type_of-at ipv4v6 = refl

cgdcont_of-listed :
    (c : PdpContext) (rest : Text)
    → HasPlainApn c
    → cgdcont_of (listed (c, rest)) ≡ some (as_actual c)
unfolding cgdcont_of context_arguments literal starts_with lstrip comma
cgdcont_of-listed c rest a =
    rw
      (
        lstrip-decimal c.cid _,
        number-decimal c.cid b',' _ refl,
        quoted-append (pdp_type_to_at c.pdp_type) _ (plain_type c.pdp_type),
        quoted-append c.apn rest a,
        pdp_type_of-at c.pdp_type,
      )
      refl

parse_cgdcont-listed :
    (rows : List (PdpContext × Text))
    → All (λ row. HasPlainApn row.0) rows
    → parse_cgdcont (map listed rows) ≡ map (λ (row : PdpContext × Text). as_actual row.0) rows
unfolding parse_cgdcont
parse_cgdcont-listed [] a = refl
parse_cgdcont-listed ((c, rest) ∷ rows) a =
    rw (cgdcont_of-listed c rest a.0, parse_cgdcont-listed rows a.1) refl

-- What is indexed as reported is reported of what is indexed.
abbrev as_reported : Option PdpContext → Option ActualPdpContext
as_reported none = none
as_reported (some c) = some (as_actual c)

index_from-reported :
    (present : List (ℕ × ActualPdpContext)) (wanted : List (ℕ × PdpContext))
    (rows : List (PdpContext × Text))
    → ((k : ℕ) → dict_get k present ≡ as_reported (dict_get k wanted))
    → (k : ℕ)
    → dict_get k (
        index_from
          (λ (c : ActualPdpContext). c.cid)
          present
          (map (λ (row : PdpContext × Text). as_actual row.0) rows))
      ≡ as_reported (
          dict_get k (
            index_from
              (λ (c : PdpContext). c.cid)
              wanted
              (map (λ (row : PdpContext × Text). row.0) rows)))
unfolding index_from
index_from-reported present wanted [] h k = h k
index_from-reported present wanted ((c, rest) ∷ rows) h k =
    index_from-reported (dict_set c.cid (as_actual c) present) (dict_set c.cid c wanted) rows
      (λ j. ground (arith, get-set c.cid j (as_actual c) present, get-set c.cid j c wanted, h j)) k

reported-Agrees : (o : Option PdpContext) → Agrees (as_reported o) o
reported-Agrees none = tt
reported-Agrees (some c) = matches-as_actual c

-- If the modem lists the contexts in their order, for each a line with the arguments of the command
-- that defines it and anything behind them, and no access point name has a quote in it, then the
-- reconciliation of what is read from the lines with the contexts has nothing to do.
pub reconcile-relisted :
    (rows : List (PdpContext × Text))
    → All (λ row. HasPlainApn row.0) rows
    → reconcile (parse_cgdcont (map listed rows)) (map (λ (row : PdpContext × Text). row.0) rows)
      ≡ []
unfolding dict_get
reconcile-relisted rows a = rw (parse_cgdcont-listed rows a) (
    reconcile_settled _ _ (λ k.
      rw (index_from-reported [] [] rows (λ j. refl) k)
        (reported-Agrees (dict_get k (by_cid (map (λ (row : PdpContext × Text). row.0) rows))))))
