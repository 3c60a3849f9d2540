-- ===== src/Core/Daemon/Requests.antt =====
-- src/sim_monitor/core/daemon.py: the commands that delete text messages and that run diagnostics.
use sim_connectivity_monitor.Prelude.{
  ℕ, Bool, true, false, Option, none, some, List, [], ◌∷◌, ◌++◌, Text, codes, if◌then◌else◌, take,
  is_empty,
}
use sim_connectivity_monitor.Core.Reply.{RegexSearch}
use sim_connectivity_monitor.Core.Snapshot.{DiagnosticEntry}
use sim_connectivity_monitor.Core.Exec.{
  Exec, on_tried, ◌>>=◌, ◌>>◌, pure, done, gets, modify, for_each, attempt_modem,
}
use sim_connectivity_monitor.Core.Daemon.Env.{Env, StoredSms}
use sim_connectivity_monitor.Core.Daemon.Machine.{Machine, info, warning, call, emit, update}
use sim_connectivity_monitor.Core.Daemon.Sms.{count_unread}

abbrev pub diagnostic_limit : ℕ
diagnostic_limit = 20

-- `"\n".join(lines)`.
abbrev join_lines : List Text → Text
join_lines [] = []
join_lines (line ∷ []) = line
join_lines (line ∷ next ∷ lines) = line ++ (10 ∷ join_lines (next ∷ lines))

abbrev pub or_ok : Text → Text
or_ok output = if is_empty output then codes "OK" else output

module _ {W : Type 0} (env : Env W) (search_regex : RegexSearch) where
  open env use {
    wall_clock, watchdog, find_sms, erase_sms, erase_all_sms, delete_sms_row, diagnostic_commands,
    execute_raw,
  }

  abbrev pub erase_index : ℕ → ℕ → Exec (Machine W) Unit
  erase_index driver index = do
    r ← attempt_modem (call (erase_sms driver index))
    on_tried r (λ _. done) (λ _. emit warning "sms")

  abbrev pub erase_inbound : Bool → Option ℕ → List ℕ → Exec (Machine W) Unit
  erase_inbound true (some driver) indices = do
    for_each indices (erase_index driver)
    modify (λ d. record d { sms_pending = true })
  erase_inbound _ _ indices = done

  abbrev pub delete_row : ℕ → Option StoredSms → Exec (Machine W) Unit
  delete_row row_id none = done
  delete_row row_id (some row) = do
    driver ← gets (λ d. d.driver)
    erase_inbound row.inbound driver row.modem_indices
    call (delete_sms_row row_id)
    count_unread env search_regex

  unfoldable pub delete_sms : ℕ → Exec (Machine W) Unit
  delete_sms row_id = do row ← call (find_sms row_id); delete_row row_id row

  abbrev pub erase_all : Option ℕ → Exec (Machine W) Unit
  erase_all none = done
  erase_all (some driver) = do
    r ← attempt_modem (call (erase_all_sms driver))
    on_tried r (λ _. done) (λ _. emit warning "sms")

  unfoldable pub clear_sms : Exec (Machine W) Unit
  clear_sms = do
    driver ← gets (λ d. d.driver)
    erase_all driver
    modify (λ d. record d { sms_pending = true })
    emit info "sms"

  abbrev pub diagnose : ℕ → Text → Exec (Machine W) DiagnosticEntry
  diagnose driver command = do
    call watchdog
    r ← attempt_modem (call (execute_raw driver command))
    on_tried r
        (λ lines.
          pure (record { command = command; output = or_ok (join_lines lines); succeeded = true }))
        (λ e. pure (record { command = command; output = e; succeeded = false }))

  unfoldable pub diagnose_all : ℕ → List Text → Exec (Machine W) (List DiagnosticEntry)
  diagnose_all driver [] = pure []
  diagnose_all driver (command ∷ commands) = do
    entry ← diagnose driver command
    entries ← diagnose_all driver commands
    pure (entry ∷ entries)

  -- `list(requested) or self.driver.DIAGNOSTIC_COMMANDS`.
  abbrev pub requested_or : List Text → List Text → List Text
  requested_or [] standard = standard
  requested_or (c ∷ cs) standard = c ∷ cs

  abbrev pub diagnose_by : Option ℕ → List Text → Exec (Machine W) Unit
  diagnose_by none requested = do
    now ← call wall_clock
    update (λ s. record s {
      diagnostics = some (record { ran_at = now; entries = []; no_modem_note = true });
    })
  diagnose_by (some driver) requested = do
    entries ←
        diagnose_all driver
          (take diagnostic_limit (requested_or requested (diagnostic_commands driver)))
    now ← call wall_clock
    update (λ s. record s {
      diagnostics = some (record { ran_at = now; entries = entries; no_modem_note = false });
    })
    emit info "diagnostics"

  unfoldable pub run_diagnostics : List Text → Exec (Machine W) Unit
  run_diagnostics requested = do driver ← gets (λ d. d.driver); diagnose_by driver requested
