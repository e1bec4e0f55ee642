-- ===== src/Permits/Alerts.antt =====
-- scripts/process_and_notify.py: `send_critical_permit_notifications`, which sends the critical
-- permits in batches. The text of a message is not modelled, only what it says.
pub mod Laws
use nobleport.Prelude.{
  ℕ, zero, suc, ◌+◌, ◌-◌, ◌/◌, min, Bool, true, false, List, [], ◌∷◌, ◌++◌, length, take, drop, ltb,
  if◌then◌else◌,
}
use nobleport.Permits.Process.{Rated}

abbrev pub batch_size : ℕ
batch_size = 5

-- a message: the batch, its number among how many, and the positions that it shows of how many
pub record Alert : Type 0 where
  pub batch : List Rated
  pub batch_num : ℕ
  pub total_batches : ℕ
  pub first : ℕ
  pub last : ℕ
  pub total : ℕ

-- the variables of the loop, with the messages handed over and the pauses made
pub record Sent : Type 0 where
  pub sent : ℕ
  pub failed : ℕ
  pub alerts : List Alert
  pub pauses : ℕ

-- `min(len(critical), 25)`
abbrev pub shown : List Rated → ℕ
shown critical = min (length critical) 25

unfoldable pub alert_at : List Rated → ℕ → Alert
alert_at critical batch_start =
    let batch = take batch_size (drop batch_start critical) in
    record {
      batch = batch;
      batch_num = batch_start / batch_size + 1;
      total_batches = (shown critical + batch_size - 1) / batch_size;
      first = batch_start + 1;
      last = batch_start + length batch;
      total = length critical;
    }

-- `delivers alerts alert` is whether Slack takes the message after those of `alerts`
module _ (delivers : List Alert → Alert → Bool) (critical : List Rated) where
  -- the body of the loop
  unfoldable pub send_one : ℕ → Sent → Sent
  unfolding alert_at
  send_one batch_start acc =
      let alert = alert_at critical batch_start in
      let ok = delivers acc.alerts alert in
      record {
        sent = if ok then acc.sent + 1 else acc.sent;
        failed = if ok then acc.failed else acc.failed + 1;
        alerts = acc.alerts ++ alert ∷ [];
        pauses =
            if ltb (batch_start + batch_size) (shown critical) then acc.pauses + 1 else acc.pauses;
      }

  -- `for batch_start in range(batch_start, min(len(critical), 25), batch_size)`
  unfoldable pub send_from : ℕ → ℕ → Sent → Sent
  unfolding send_one
  send_from zero batch_start acc = acc
  send_from (suc fuel) batch_start acc =
      let rest = send_from fuel (batch_start + batch_size) (send_one batch_start acc) in
      if ltb batch_start (shown critical) then rest else acc

  -- each round covers at least one permit
  unfoldable pub send_critical : Sent
  unfolding send_from
  send_critical =
      send_from (shown critical) 0 (record { sent = 0; failed = 0; alerts = []; pauses = 0 })
