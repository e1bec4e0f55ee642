-- ===== src/Permits/Notify.antt =====
-- scripts/process_and_notify.py: the messages to the owner, and `main`. Slack is reached by a
-- subprocess, which is a parameter.
pub mod Messages
pub mod Summaries
pub mod Laws
pub mod Sending
use nobleport.Prelude.{
  ℕ, ◌+◌, Bool, true, false, Option, none, some, List, [], ◌∷◌, ◌++◌, map, ◌==◌, if◌then◌else◌,
}
use nobleport.Python.Text.{Text, codes}
use nobleport.Permits.Process.{
  Permit, Processed, PermitFile, process_permits, ProcessedOutput, processed_output,
}
use nobleport.Permits.Alerts.{Alert, Sent, send_critical}
use nobleport.Permits.Notify.Messages.{alert_message}
use nobleport.Permits.Notify.Summaries.{daily_message, breakdown_message, strategic_message}

-- what a subprocess leaves
pub record Completed : Type 0 where
  pub returncode : ℕ
  pub stdout : Text
  pub stderr : Text

-- what `main` does: the file it saves, the messages it hands over, the marks it prints for the
-- three summaries, the counts of the alerts, and the total that it prints
pub record Run : Type 0 where
  pub saved : ProcessedOutput
  pub messages : List Text
  pub marks : List Bool
  pub sent : ℕ
  pub failed : ℕ
  pub reported : ℕ

abbrev pub as_list : Option Text → List Text
as_list none = []
as_list (some message) = message ∷ []

-- `slack before text` is how the tool ends that is to send `text` after the messages `before`
module _ (slack : List Text → Text → Completed) where
  -- `send_slack_message`
  unfoldable pub send_slack_message : List Text → Text → Bool × Text
  send_slack_message before message =
      let result = slack before message in
      if result.returncode == 0 then (true, result.stdout) else (false, result.stderr)

  -- whether the summary is marked as sent; there may be none to send
  abbrev pub is_sent : List Text → List Text → Bool
  is_sent before [] = true
  is_sent before (message ∷ more) = (send_slack_message before message).0

  -- `send_critical_permit_notifications`, after the messages `before`
  unfoldable pub send_alerts : List Text → Processed → Sent
  unfolding send_slack_message send_critical
  send_alerts before processed =
      send_critical
        (λ alerts alert.
          (send_slack_message (before ++ map alert_message alerts) (alert_message alert)).0)
        processed.critical

  -- the run, with the three summaries made
  unfoldable pub run_with : PermitFile → Processed → Text → Text → List Text → Run
  unfolding send_alerts
  run_with loaded processed daily breakdown strategic =
      let before = daily ∷ breakdown ∷ strategic in
      let alerts = send_alerts before processed in
      record {
        saved = processed_output loaded processed;
        messages = before ++ map alert_message alerts.alerts;
        marks =
            (send_slack_message [] daily).0
            ∷ (send_slack_message (daily ∷ []) breakdown).0
            ∷ is_sent (daily ∷ breakdown ∷ []) strategic
            ∷ [];
        sent = alerts.sent;
        failed = alerts.failed;
        reported = alerts.sent + 3;
      }

  -- `main`, with the file loaded; `none` is a KeyError of the breakdown
  unfoldable pub main : Text → PermitFile → Option Run
  unfolding run_with daily_message breakdown_message strategic_message process_permits
  main now loaded =
      let processed = process_permits loaded.permits in
      let strategic = as_list (strategic_message processed.strategic) in
      elim (breakdown_message processed) [
        | none ↦ none
        | some breakdown ↦
            some
              (run_with loaded processed (daily_message now processed loaded) breakdown strategic)
      ]
