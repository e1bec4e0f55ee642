-- ===== src/Permits/Notify/Sending.antt =====
-- What `main` of scripts/process_and_notify.py sends, saves and reports.
use nobleport.Prelude.{
  ◌+◌, ◌/◌, ◌≡◌, refl, ap, ◌∙◌, min, true, some, List, [], ◌∷◌, ◌++◌, map, arith, length, take,
  length-append, length-map,
}
use nobleport.Python.Text.{Text}
use nobleport.Permits.Process.{Rated, PermitFile, processed_output, process_permits, is_strategic}
use nobleport.Permits.Process.Laws.{rated_if, is_critical, process_permits-Classes}
use nobleport.Permits.Groups.{table}
use nobleport.Permits.Alerts.{Alert}
use nobleport.Permits.Alerts.Laws.{covered, send_critical-Delivered, send_critical-accepted}
use nobleport.Permits.Notify.Messages.{alert_message}
use nobleport.Permits.Notify.Summaries.{daily_message, breakdown_text, strategic_message}
use nobleport.Permits.Notify.Laws.{line_of, breakdown_message-table}
use nobleport.Permits.Notify.{
  Completed, Run, as_list, send_slack_message, send_alerts, run_with, main,
}

length-strategic :
    (strategic : List Rated)
    → length (as_list (strategic_message strategic)) ≡ min 1 (length strategic)
unfolding strategic_message
length-strategic [] = refl
length-strategic (r ∷ strategic) = omega arith

accepted :
    (slack : List Text → Text → Completed)
    → ((before : List Text) (message : Text) → (slack before message).returncode ≡ 0)
    → (before : List Text) (message : Text) → (send_slack_message slack before message).0 ≡ true
unfolding send_slack_message
accepted slack takes before message = rw (takes before message) refl

module _ (slack : List Text → Text → Completed) (now : Text) (loaded : PermitFile) where
  -- the breakdown, which shows rows of the digest's table
  abbrev pub breakdown : Text
  breakdown =
      let rows = table (λ p. p.municipality) loaded.permits in
      breakdown_text (length rows) (map line_of (take 15 rows))

  -- what a run of `main` amounts to
  pub record Notified (r : Run) : Type 0 where
    pub alerts : List Alert
    pub saved : r.saved ≡ processed_output loaded (process_permits loaded.permits)
    pub messages :
        r.messages
        ≡ daily_message now (process_permits loaded.permits) loaded
            ∷ breakdown
            ∷ as_list (strategic_message (rated_if is_strategic loaded.permits))
          ++ map alert_message alerts
    pub batches : covered alerts ≡ take 25 (rated_if is_critical loaded.permits)
    pub number :
        length r.messages
        ≡ 2
          + min 1 (length (rated_if is_strategic loaded.permits))
          + (min 25 (length (rated_if is_critical loaded.permits)) + 4) / 5
    pub outcomes : r.sent + r.failed ≡ length alerts
    pub reported : r.reported ≡ r.sent + 3
    pub all_taken :
        ((before : List Text) (message : Text) → (slack before message).returncode ≡ 0)
        → r.failed ≡ 0

  -- `main` never fails on a lookup. It saves the classes of the permits, and hands over, in this
  -- order, the daily summary, the breakdown, which shows the first 15 rows of the digest's table,
  -- a strategic summary if there is a strategic permit, and a fifth as many alerts, rounded up, as
  -- there are critical permits, of which they show the first 25. Each alert is counted as sent or
  -- as failed, none as failed if Slack takes all messages, and the total reported is that of the
  -- alerts sent and three.
  pub main-Notified : (r : Run) × (main slack now loaded ≡ some r) × Notified r
  unfolding main run_with send_alerts send_slack_message
  main-Notified =
      let processed = process_permits loaded.permits in
      let c = process_permits-Classes loaded.permits in
      let daily = daily_message now processed loaded in
      let strategic = as_list (strategic_message processed.strategic) in
      let before = daily ∷ breakdown ∷ strategic in
      let run = run_with slack loaded processed daily breakdown strategic in
      let d =
        send_critical-Delivered
          (λ alerts alert.
            (send_slack_message slack (before ++ map alert_message alerts) (alert_message alert)).0)
          processed.critical in
      let alerts = (send_alerts slack before processed).alerts in
      let made : main slack now loaded ≡ some run =
        rw (breakdown_message-table loaded.permits, main) refl in
      (
        run,
        made,
        record {
          alerts = alerts;
          saved = refl;
          messages =
              ap
                (λ s. daily ∷ breakdown ∷ as_list (strategic_message s) ++ map alert_message alerts)
                c.strategic;
          batches = d.batches ∙ ap (take 25) c.critical;
          number = omega (
            arith,
            length-append strategic (map alert_message alerts),
            length-map alert_message alerts,
            length-strategic processed.strategic,
            ap length c.strategic,
            ap length c.critical,
            d.number,
          );
          outcomes = d.outcomes;
          reported = refl;
          all_taken = λ takes. send_critical-accepted _ processed.critical (λ alerts alert.
              accepted slack takes (before ++ map alert_message alerts) (alert_message alert));
        },
      )
