-- ===== src/Core/Daemon/Sms.antt =====
-- src/sim_monitor/core/daemon.py: unsolicited codes, the inbox and auto-replies.
use sim_connectivity_monitor.Prelude.{
  ℕ, ◌+◌, Bool, true, false, not, ◌&&◌, Option, none, some, List, [], ◌∷◌, ◌++◌, Text, codes, leb,
  if◌then◌else◌, length, keep, is_empty, is_some, strip, text_eq,
}
use sim_connectivity_monitor.Core.Reply.{RegexSearch, SmsReplyRule, SmsAutoReplyConfig, find_reply}
use sim_connectivity_monitor.Core.States.{State, modem_found, sim_ready, connected, degraded}
use sim_connectivity_monitor.Core.Exec.{
  Exec, on_tried, ◌>>=◌, ◌>>◌, pure, done, gets, modify, when, for_each, attempt_modem,
}
use sim_connectivity_monitor.Core.Daemon.Env.{
  Env, UrcKind, sim_status, new_sms, registration, caller_id, sms_pdu, unknown, other, UrcEvent,
  InboxRow,
}
use sim_connectivity_monitor.Core.Daemon.Machine.{Machine, info, warning, error, call, emit, update}
use sim_connectivity_monitor.Core.Daemon.Attach.{same_text, record_identity}

-- `_SMS_SAFE_STATES`.
abbrev pub is_sms_safe : State → Bool
is_sms_safe connected = true
is_sms_safe modem_found = true
is_sms_safe sim_ready = true
is_sms_safe degraded = true
is_sms_safe _ = false

abbrev pub auto_reply_window : ℕ
auto_reply_window = 3600

abbrev pub auto_reply_max : ℕ
auto_reply_max = 5

-- `self._auto_reply_times.get(peer, [])`, and the assignment to it.
unfoldable pub times_of : Text → List (Text × List ℕ) → List ℕ
times_of peer [] = []
times_of peer ((p, ts) ∷ m) = if text_eq p peer then ts else times_of peer m

unfoldable pub set_times : Text → List ℕ → List (Text × List ℕ) → List (Text × List ℕ)
set_times peer ts [] = (peer, ts) ∷ []
set_times peer ts ((p, us) ∷ m) =
    if text_eq p peer then (p, ts) ∷ m else (p, us) ∷ set_times peer ts m

-- `_auto_reply_allowed` at a time: `t >= now - window`, with the window on the other side.
unfoldable pub allow_reply : ℕ → Text → List (Text × List ℕ) → Bool × List (Text × List ℕ)
unfolding times_of set_times
allow_reply now peer m =
    let recent = keep (λ t. leb now (t + auto_reply_window)) (times_of peer m) in
    if leb auto_reply_max (length recent)
    then (false, set_times peer recent m)
    else (true, set_times peer (recent ++ now ∷ []) m)

-- `commands[:20]`. (Network scans get a longer time limit, which is the driver's matter.)
module _ {W : Type 0} (env : Env W) (search_regex : RegexSearch) where
  open env use {
    clock, poll_events, add_urc, classify_pdu, list_sms, store_inbound, count_unread_sms,
    transmit_sms, add_sent_sms, load_auto_reply,
  }

  -- `_flag_ota_pdu`.
  abbrev pub flag_pdu : Text → Exec (Machine W) Unit
  flag_pdu raw = when (classify_pdu raw) (emit info "ota")

  abbrev pub label_of : UrcEvent → Text
  label_of ev = elim ev.label [ none ↦ ev.raw | some l ↦ l ]

  abbrev pub register : UrcEvent → Exec (Machine W) Unit
  register ev = do
    known ← gets (λ d. d.registration)
    when (not (same_text (some (label_of ev)) known)) (do
      modify (λ d. record d { registration = some (label_of ev) })
      update (λ s. record s { registration = some (label_of ev) })
      emit info "identity"
      record_identity env false (codes "registration-change"))

  abbrev pub react : UrcKind → UrcEvent → Exec (Machine W) Unit
  react sim_status ev = do modify (λ d. record d { sim_refresh_pending = true }); emit info "ota"
  react new_sms ev = do modify (λ d. record d { sms_pending = true }); emit info "urc"
  react registration ev = register ev
  react caller_id ev = emit info "urc"
  react sms_pdu ev = flag_pdu ev.raw
  react unknown ev = done
  react other ev = emit info "urc"

  unfoldable pub on_urc : UrcEvent → Exec (Machine W) Unit
  on_urc ev = do call (add_urc ev); react ev.kind ev

  abbrev pub poll_driver : Option ℕ → Exec (Machine W) Unit
  poll_driver none = done
  poll_driver (some driver) = do
    r ← attempt_modem (call (poll_events driver))
    on_tried r (λ urcs. for_each urcs on_urc) (λ _. done)

  unfoldable pub poll_urcs : Exec (Machine W) Unit
  poll_urcs = do driver ← gets (λ d. d.driver); poll_driver driver

  abbrev pub send_by : Option ℕ → Text → Text → Exec (Machine W) Unit
  send_by none number body = emit error "sms"
  send_by (some driver) number body = do
    r ← attempt_modem (call (transmit_sms driver number body))
    on_tried r (λ parts. do call (add_sent_sms number body parts); emit info "sms")
        (λ _. emit error "sms")

  unfoldable pub send_sms : Text → Text → Exec (Machine W) Unit
  send_sms number body = do driver ← gets (λ d. d.driver); send_by driver number body

  -- `_auto_reply_allowed`.
  unfoldable pub auto_reply_allowed : Text → Exec (Machine W) Bool
  auto_reply_allowed peer = do
    now ← call clock
    times ← gets (λ d. d.auto_reply_times)
    modify (λ d. record d { auto_reply_times = (allow_reply now peer times).1 })
    pure (allow_reply now peer times).0

  abbrev pub reply_with : Text → Option SmsReplyRule → Exec (Machine W) Unit
  reply_with peer none = done
  reply_with peer (some rule) = do
    allowed ← auto_reply_allowed peer
    if allowed then (emit info "sms" >> send_sms peer rule.reply) else emit warning "sms"

  unfoldable pub reply_to : SmsAutoReplyConfig → InboxRow → Exec (Machine W) Unit
  reply_to config row =
      let peer = strip row.peer in
      if is_empty peer then done else reply_with peer (find_reply search_regex config row.body)

  abbrev pub reply_all : List InboxRow → Option SmsAutoReplyConfig → Exec (Machine W) Unit
  reply_all rows none = done
  reply_all rows (some config) =
      when (config.enabled && not (is_empty config.rules)) (for_each rows (reply_to config))

  unfoldable pub auto_reply : List InboxRow → Exec (Machine W) Unit
  auto_reply rows = do config ← call load_auto_reply; reply_all rows config

  abbrev pub note_ota : InboxRow → Exec (Machine W) Unit
  note_ota row = when (is_some row.ota) (emit info "ota")

  abbrev pub count_unread : Exec (Machine W) Unit
  count_unread = do unread ← call count_unread_sms; update (λ s. record s { sms_unread = unread })

  abbrev pub announce : List InboxRow → Exec (Machine W) Unit
  announce [] = done
  announce (row ∷ rows) = do
    emit info "sms"
    for_each (row ∷ rows) note_ota
    auto_reply (row ∷ rows)

  unfoldable pub fetch_sms : ℕ → Exec (Machine W) Unit
  fetch_sms driver = do
    modify (λ d. record d { sms_pending = false })
    r ← attempt_modem (call (list_sms driver))
    on_tried r (λ raw. do rows ← call (store_inbound raw); count_unread; announce rows)
        (λ _. emit warning "sms")

  abbrev pub fetch_from : Option ℕ → Bool → Exec (Machine W) Unit
  fetch_from (some driver) true = do
    now ← call clock
    next ← gets (λ d. d.next_sms_poll)
    when (leb next now) (do
      modify (λ d. record d { sms_pending = true })
      later ← call clock
      modify (λ d. record d { next_sms_poll = later + 15 }))
    pending ← gets (λ d. d.sms_pending)
    when pending (fetch_sms driver)
  fetch_from (some driver) false = done
  fetch_from none allowed = done

  unfoldable pub maybe_fetch_sms : Exec (Machine W) Unit
  maybe_fetch_sms = do
    driver ← gets (λ d. d.driver)
    allowed ← gets (λ d. is_sms_safe d.state && d.store.sim_present)
    fetch_from driver allowed
