-- ===== src/Core/Daemon/QuietSms.antt =====
-- The messages and diagnostics of src/sim_monitor/core/daemon.py leave the control of the daemon
-- alone.
use sim_connectivity_monitor.Prelude.{ℕ, Bool, true, false, Option, none, some, List, [], ◌∷◌, Text}
use sim_connectivity_monitor.Core.Reply.{RegexSearch, SmsReplyRule, SmsAutoReplyConfig}
use sim_connectivity_monitor.Core.Exec.Keeps.{Keeps, Keeps-bind, Keeps-pure}
use sim_connectivity_monitor.Core.Daemon.Env.{
  Env, UrcKind, UrcEvent, InboxRow, StoredSms, sim_status, new_sms, registration, caller_id,
  sms_pdu, unknown, other,
}
use sim_connectivity_monitor.Core.Daemon.Machine.{Machine}
use sim_connectivity_monitor.Core.Daemon.Sms
use sim_connectivity_monitor.Core.Daemon.Requests
use sim_connectivity_monitor.Core.Daemon.Quiet.{Frame, quiet_rules, Quiet-record_identity}

ruleset sms_rules = (quiet_rules, Quiet-record_identity)

module _ {W : Type 0} {P : Machine W → Type 0} ⦃frame : Frame P⦄ (env : Env W)
    (search_regex : RegexSearch) where
  Quiet-react : (k : UrcKind) (ev : UrcEvent) → Keeps P (Sms.react env search_regex k ev)
  Quiet-react sim_status ev = search sms_rules depth 60
  Quiet-react new_sms ev = search sms_rules depth 60
  Quiet-react registration ev = search sms_rules depth 60
  Quiet-react caller_id ev = search sms_rules depth 60
  Quiet-react sms_pdu ev = search sms_rules depth 60
  Quiet-react unknown ev = search sms_rules depth 60
  Quiet-react other ev = search sms_rules depth 60

  pub Quiet-on_urc : (ev : UrcEvent) → Keeps P (Sms.on_urc env search_regex ev)
  unfolding Sms.on_urc
  Quiet-on_urc ev = search (sms_rules, Quiet-react) depth 60

  Quiet-poll_driver : (o : Option ℕ) → Keeps P (Sms.poll_driver env search_regex o)
  Quiet-poll_driver none = search (sms_rules, Quiet-on_urc) depth 60
  Quiet-poll_driver (some n) = search (sms_rules, Quiet-on_urc) depth 60

  pub Quiet-poll_urcs : Keeps P (Sms.poll_urcs env search_regex)
  unfolding Sms.poll_urcs
  Quiet-poll_urcs = search (sms_rules, Quiet-poll_driver) depth 60

  Quiet-send_by :
      (o : Option ℕ) (number body : Text) → Keeps P (Sms.send_by env search_regex o number body)
  Quiet-send_by none number body = search sms_rules depth 60
  Quiet-send_by (some n) number body = search sms_rules depth 60

  pub Quiet-send_sms :
      (number : Text) (body : Text) → Keeps P (Sms.send_sms env search_regex number body)
  unfolding Sms.send_sms
  Quiet-send_sms number body = search (sms_rules, Quiet-send_by) depth 60

  pub Quiet-auto_reply_allowed :
      (peer : Text) → Keeps P (Sms.auto_reply_allowed env search_regex peer)
  unfolding Sms.auto_reply_allowed
  Quiet-auto_reply_allowed peer = search (sms_rules) depth 60

  Quiet-reply_with :
      (peer : Text) (o : Option SmsReplyRule) → Keeps P (Sms.reply_with env search_regex peer o)
  Quiet-reply_with peer none = search (sms_rules, Quiet-auto_reply_allowed, Quiet-send_sms) depth 60
  Quiet-reply_with peer (some r) =
      search (sms_rules, Quiet-auto_reply_allowed, Quiet-send_sms) depth 60

  pub Quiet-reply_to :
      (c : SmsAutoReplyConfig) (row : InboxRow) → Keeps P (Sms.reply_to env search_regex c row)
  unfolding Sms.reply_to
  Quiet-reply_to c row = search (sms_rules, Quiet-reply_with) depth 60

  Quiet-reply_all :
      (rows : List InboxRow) (o : Option SmsAutoReplyConfig)
      → Keeps P (Sms.reply_all env search_regex rows o)
  Quiet-reply_all rows none = search (sms_rules, Quiet-reply_to) depth 60
  Quiet-reply_all rows (some c) = search (sms_rules, Quiet-reply_to) depth 60

  pub Quiet-auto_reply : (rows : List InboxRow) → Keeps P (Sms.auto_reply env search_regex rows)
  unfolding Sms.auto_reply
  Quiet-auto_reply rows = search (sms_rules, Quiet-reply_all) depth 60

  Quiet-announce : (rows : List InboxRow) → Keeps P (Sms.announce env search_regex rows)
  Quiet-announce [] = search (sms_rules, Quiet-auto_reply) depth 60
  Quiet-announce (r ∷ rows) = search (sms_rules, Quiet-auto_reply) depth 60

  pub Quiet-fetch_sms : (n : ℕ) → Keeps P (Sms.fetch_sms env search_regex n)
  unfolding Sms.fetch_sms
  Quiet-fetch_sms n = search (sms_rules, Quiet-announce) depth 60

  Quiet-fetch_from : (o : Option ℕ) (b : Bool) → Keeps P (Sms.fetch_from env search_regex o b)
  Quiet-fetch_from none b = search (sms_rules, Quiet-fetch_sms) depth 60
  Quiet-fetch_from (some n) true = search (sms_rules, Quiet-fetch_sms) depth 60
  Quiet-fetch_from (some n) false = search (sms_rules, Quiet-fetch_sms) depth 60

  pub Quiet-maybe_fetch_sms : Keeps P (Sms.maybe_fetch_sms env search_regex)
  unfolding Sms.maybe_fetch_sms
  Quiet-maybe_fetch_sms = search (sms_rules, Quiet-fetch_from) depth 60

  Quiet-erase_inbound :
      (b : Bool) (o : Option ℕ) (xs : List ℕ)
      → Keeps P (Requests.erase_inbound env search_regex b o xs)
  Quiet-erase_inbound true (some n) xs = search sms_rules depth 60
  Quiet-erase_inbound true none xs = search sms_rules depth 60
  Quiet-erase_inbound false o xs = search sms_rules depth 60

  Quiet-delete_row :
      (n : ℕ) (o : Option StoredSms) → Keeps P (Requests.delete_row env search_regex n o)
  Quiet-delete_row n none = search (sms_rules, Quiet-erase_inbound) depth 60
  Quiet-delete_row n (some r) = search (sms_rules, Quiet-erase_inbound) depth 60

  pub Quiet-delete_sms : (n : ℕ) → Keeps P (Requests.delete_sms env search_regex n)
  unfolding Requests.delete_sms
  Quiet-delete_sms n = search (sms_rules, Quiet-delete_row) depth 60

  Quiet-erase_all : (o : Option ℕ) → Keeps P (Requests.erase_all env search_regex o)
  Quiet-erase_all none = search sms_rules depth 60
  Quiet-erase_all (some n) = search sms_rules depth 60

  pub Quiet-clear_sms : Keeps P (Requests.clear_sms env search_regex)
  unfolding Requests.clear_sms
  Quiet-clear_sms = search (sms_rules, Quiet-erase_all) depth 60

  Quiet-diagnose : (n : ℕ) (c : Text) → Keeps P (Requests.diagnose env search_regex n c)
  Quiet-diagnose n c = search sms_rules depth 60

  Quiet-diagnose_all :
      (n : ℕ) (cs : List Text) → Keeps P (Requests.diagnose_all env search_regex n cs)
  unfolding Requests.diagnose_all
  Quiet-diagnose_all n [] = search sms_rules depth 60
  Quiet-diagnose_all n (c ∷ cs) =
      Keeps-bind (Requests.diagnose env search_regex n c) _ (Quiet-diagnose n c) (λ entry.
        Keeps-bind (Requests.diagnose_all env search_regex n cs) _ (Quiet-diagnose_all n cs)
          (λ entries. Keeps-pure (entry ∷ entries)))

  Quiet-diagnose_by :
      (o : Option ℕ) (xs : List Text) → Keeps P (Requests.diagnose_by env search_regex o xs)
  Quiet-diagnose_by none xs = search (sms_rules, Quiet-diagnose_all) depth 60
  Quiet-diagnose_by (some n) xs = search (sms_rules, Quiet-diagnose_all) depth 60

  pub Quiet-run_diagnostics :
      (xs : List Text) → Keeps P (Requests.run_diagnostics env search_regex xs)
  unfolding Requests.run_diagnostics
  Quiet-run_diagnostics xs = search (sms_rules, Quiet-diagnose_by) depth 60
