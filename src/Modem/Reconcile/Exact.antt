-- ===== src/Modem/Reconcile/Exact.antt =====
-- The actions of src/sim_monitor/modem/pdp_reconcile.py leave exactly the desired contexts.
use sim_connectivity_monitor.Prelude.{
  ℕ, ◌≡◌, refl, sym, ap, ◌∙◌, inl, inr, true, false, ◌&&◌, Option, none, some, List, [], ◌∷◌, ◌++◌,
  arith, ltb, ◌==◌, is_none, is_some, if◌then◌else◌, any, Bool-cases, text_eq_refl, lower, sort_by,
  dict_get, dict_set, dict_keys, get-set, any-keys, any-sort_by, All, All-sort_by,
}
use sim_connectivity_monitor.Config.Schema.{PdpContext}
use sim_connectivity_monitor.Modem.Reconcile.{
  ActualPdpContext, Action, define_context, delete_context, pdp_type_text, matches, index_from,
  by_cid, actual_by_cid, deletions, definitions, differs, define_one, reconcile,
}

-- The modem's table of contexts, and what AT+CGDCONT does to it.
abbrev pub Table : Type 0
Table = ℕ → Option ActualPdpContext

abbrev pub as_actual : PdpContext → ActualPdpContext
as_actual c = record { cid = c.cid; pdp_type = pdp_type_text c.pdp_type; apn = c.apn }

abbrev pub perform : Table → Action → Table
perform t (delete_context cid) k = if cid == k then none else t k
perform t (define_context c) k = if c.cid == k then some (as_actual c) else t k

pub perform_all : Table → List Action → Table
perform_all t [] = t
perform_all t (a ∷ rest) = perform_all (perform t a) rest

perform_all-append :
    (t : Table) (first bs : List Action)
    → perform_all t (first ++ bs) ≡ perform_all (perform_all t first) bs
unfolding perform_all
perform_all-append t [] bs = refl
perform_all-append t (a ∷ rest) bs = perform_all-append (perform t a) rest bs

after_deletions :
    (desired : List (ℕ × PdpContext)) (cids : List ℕ) (t : Table) (k : ℕ)
    → perform_all t (deletions desired cids) k
      ≡ (if any (λ c. c == k) cids && is_none (dict_get k desired) then none else t k)
unfolding perform_all deletions
after_deletions desired [] t k = refl
after_deletions desired (c ∷ cids) t k = elim (Bool-cases (is_none (dict_get c desired))) [
  | inl e ↦ rw e (ground (arith, after_deletions desired cids (perform t (delete_context c)) k))
  | inr e ↦ rw e (ground (arith, after_deletions desired cids t k))
]

-- A dictionary by cid holds each context under its own cid.
index_from-cid :
    (m : List (ℕ × PdpContext)) (cs : List PdpContext)
    → ((k : ℕ) (c : PdpContext) → dict_get k m ≡ some c → c.cid ≡ k)
    → (k : ℕ) (c : PdpContext) → dict_get k (index_from (λ (c : PdpContext). c.cid) m cs) ≡ some c
    → c.cid ≡ k
unfolding index_from
index_from-cid m [] h k c e = h k c e
index_from-cid m (d ∷ cs) h k c e =
    index_from-cid (dict_set d.cid d m) cs (λ j b q. ground (arith, get-set d.cid j d m, h j b)) k c
      e

by_cid-cid :
    (cs : List PdpContext) (k : ℕ) (c : PdpContext) → dict_get k (by_cid cs) ≡ some c → c.cid ≡ k
unfolding dict_get
by_cid-cid cs k c e = index_from-cid [] cs (λ j d q. cc) k c e

-- What the definitions leave under `k`.
abbrev defined :
    List (ℕ × ActualPdpContext) → List (ℕ × PdpContext) → Table → ℕ → Option ActualPdpContext
defined actual desired t k = elim (dict_get k desired) [
  | none ↦ t k
  | some d ↦ if differs (dict_get k actual) d then some (as_actual d) else t k
]

after_definitions :
    (actual : List (ℕ × ActualPdpContext)) (desired : List (ℕ × PdpContext))
    → ((k : ℕ) (c : PdpContext) → dict_get k desired ≡ some c → c.cid ≡ k)
    → (cids : List ℕ) (t : Table) (k : ℕ)
    → perform_all t (definitions actual desired cids) k
      ≡ (if any (λ c. c == k) cids then defined actual desired t k else t k)
unfolding perform_all definitions
after_definitions actual desired h [] t k = refl
after_definitions actual desired h (c ∷ cids) t k =
    go (dict_get c desired) refl (λ u. after_definitions actual desired h cids u k)
  where
    go :
        (o : Option PdpContext)
        → dict_get c desired ≡ o
        → ((u : Table)
            → perform_all u (definitions actual desired cids) k
              ≡ (if any (λ c. c == k) cids then defined actual desired u k else u k))
        → perform_all t (definitions actual desired (c ∷ cids)) k
          ≡ (if any (λ c. c == k) (c ∷ cids) then defined actual desired t k else t k)
    go none e ih = rw (e, definitions) (ground (arith, ih t))
    go (some d) e ih = elim (Bool-cases (differs (dict_get c actual) d)) [
      | inl f ↦ rw (e, definitions) (ground (arith, ih (perform t (define_context d)), h c d e))
      | inr f ↦ rw (e, definitions) (ground (arith, ih t))
    ]

pub matches-as_actual : (c : PdpContext) → matches (as_actual c) c ≡ true
unfolding matches
matches-as_actual c =
    ground (arith, text_eq_refl (pdp_type_text c.pdp_type), text_eq_refl (lower c.apn))

-- What a table has to hold under `k`: a context that matches the desired one, or nothing.
abbrev pub Agrees : Option ActualPdpContext → Option PdpContext → Type 0
Agrees (some a) (some d) = matches a d ≡ true
Agrees none none = Unit
Agrees _ _ = ⊥

abbrev pub table : List ActualPdpContext → Table
table actual k = dict_get k (actual_by_cid actual)

-- One cid: what the modem had and what is desired settle what it has.
settle :
    (had : Option ActualPdpContext) (wanted : Option PdpContext) (mid : Option ActualPdpContext)
    → mid ≡ (if is_some had && is_none wanted then none else had)
    → Agrees
        (if is_some wanted
          then (elim wanted [
            | none ↦ mid
            | some d ↦ if differs had d then some (as_actual d) else mid
          ])
          else mid)
        wanted
settle none none mid e = rw e tt
settle (some a) none mid e = rw e tt
settle none (some d) mid e = matches-as_actual d
settle (some a) (some d) mid e = elim (Bool-cases (matches a d)) [
  | inl m ↦ rw (m, e) m
  | inr m ↦ rw m (matches-as_actual d)
]

-- After the actions, the modem holds under every cid a context that matches the desired context of
-- that cid (of two with one cid, the later), and nothing where none is desired.
pub reconcile_exact :
    (actual : List ActualPdpContext) (desired : List PdpContext) (k : ℕ)
    → Agrees (perform_all (table actual) (reconcile actual desired) k) (dict_get k (by_cid desired))
unfolding reconcile
reconcile_exact actual desired k =
    let wanted = by_cid desired in
    let present = actual_by_cid actual in
    let cids = sort_by ltb (dict_keys present) in
    let mid = perform_all (table actual) (deletions wanted cids) in
    rw (perform_all-append) (
      rw
        (after_definitions present wanted (by_cid-cid desired) (sort_by ltb (dict_keys wanted)) mid
          k)
        (rw (any-sort_by (λ c. c == k) ltb (dict_keys wanted), any-keys k wanted)
          (settle (dict_get k present) (dict_get k wanted) (mid k) (
            after_deletions wanted cids (table actual) k
            ∙ ap (λ b. if b && is_none (dict_get k wanted) then none else table actual k)
                (any-sort_by (λ c. c == k) ltb (dict_keys present) ∙ any-keys k present)))))

-- Where the modem already agrees with the desired contexts, nothing is deleted …
no_deletions :
    (wanted : List (ℕ × PdpContext)) (cids : List ℕ)
    → All (λ c. is_none (dict_get c wanted) ≡ false) cids
    → deletions wanted cids ≡ []
unfolding deletions
no_deletions wanted [] h = refl
no_deletions wanted (c ∷ cids) h = rw h.0 (no_deletions wanted cids h.1)

-- … and nothing is defined.
no_definitions :
    (present : List (ℕ × ActualPdpContext)) (wanted : List (ℕ × PdpContext)) (cids : List ℕ)
    → ((k : ℕ) → Agrees (dict_get k present) (dict_get k wanted))
    → definitions present wanted cids ≡ []
unfolding definitions
no_definitions present wanted [] h = refl
no_definitions present wanted (c ∷ cids) h =
    go (dict_get c wanted) (dict_get c present) refl refl (h c)
      (no_definitions present wanted cids h)
  where
    go :
        (w : Option PdpContext) (p : Option ActualPdpContext)
        → dict_get c wanted ≡ w
        → dict_get c present ≡ p
        → Agrees p w
        → definitions present wanted cids ≡ []
        → define_one w p (definitions present wanted cids) ≡ []
    go none p e f a ih = ih
    go (some d) none e f a ih = absurd a
    go (some d) (some x) e f a ih = rw a ih

present_key :
    (present : List (ℕ × ActualPdpContext)) (wanted : List (ℕ × PdpContext))
    → ((k : ℕ) → Agrees (dict_get k present) (dict_get k wanted))
    → (k : ℕ) → is_some (dict_get k present) ≡ true
    → is_none (dict_get k wanted) ≡ false
present_key present wanted h k s = go (dict_get k present) (dict_get k wanted) s (h k)
  where
    go :
        (p : Option ActualPdpContext) (w : Option PdpContext)
        → is_some p ≡ true
        → Agrees p w
        → is_none w ≡ false
    go none w s a = cc
    go (some x) none s a = absurd a
    go (some x) (some d) s a = refl

All-keys : (P : ℕ → Type 0) (ks : List ℕ) → ((k : ℕ) → any (λ j. j == k) ks ≡ true → P k) → All P ks
All-keys P [] h = tt
All-keys P (k ∷ ks) h = (h k (ground arith), All-keys P ks (λ j e. h j (ground arith)))

-- A modem that already agrees with the profile under every cid is left alone.
pub reconcile_settled :
    (actual : List ActualPdpContext) (desired : List PdpContext)
    → ((k : ℕ) → Agrees (table actual k) (dict_get k (by_cid desired)))
    → reconcile actual desired ≡ []
unfolding reconcile
reconcile_settled actual desired h =
    let wanted = by_cid desired in
    let present = actual_by_cid actual in
    rw (
      no_definitions present wanted (sort_by ltb (dict_keys wanted)) h,
      no_deletions wanted (sort_by ltb (dict_keys present)) (
          All-sort_by ltb (λ c. is_none (dict_get c wanted) ≡ false) (dict_keys present)
            (All-keys (λ c. is_none (dict_get c wanted) ≡ false) (dict_keys present)
              (λ k e. present_key present wanted h k (sym (any-keys k present) ∙ e)))),
    )
