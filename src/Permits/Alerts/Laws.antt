-- ===== src/Permits/Alerts/Laws.antt =====
-- What the batches of scripts/process_and_notify.py cover.
use native.Mathlib.Decide.{dec_le}
use nobleport.Prelude.{
  drop-zero, ℕ, zero, suc, ◌+◌, ◌-◌, ◌*◌, ◌/◌, ◌≤◌, ◌<◌, ◌≡◌, refl, sym, ap, ◌∙◌, inl, inr, Bool,
  true, List, [], ◌∷◌, ◌++◌, arith, append-nil, append_assoc, length, take, drop, ltb, Bool-cases,
  take-zero, drop-drop, take-take-drop, take_all, length-drop, length-append,
}
use nobleport.Permits.Process.{Rated}
use nobleport.Permits.Alerts.{Alert, Sent, shown, alert_at, send_one, send_from, send_critical}

-- all permits of the messages, in order
abbrev pub covered : List Alert → List Rated
covered [] = []
covered (a ∷ alerts) = a.batch ++ covered alerts

covered-append : (xs : List Alert) (a : Alert) → covered (xs ++ a ∷ []) ≡ covered xs ++ a.batch
covered-append [] a = append-nil a.batch
covered-append (x ∷ xs) a =
    ap (λ l. x.batch ++ l) (covered-append xs a) ∙ sym (append_assoc x.batch (covered xs) a.batch)

module _ (delivers : List Alert → Alert → Bool) (critical : List Rated) where
  -- what the rounds from `start` on add to `acc`
  record Covers (start : ℕ) (acc r : Sent) : Type 0 where
    batches :
        covered r.alerts ≡ covered acc.alerts ++ take (shown critical - start) (drop start critical)
    number : length r.alerts ≡ length acc.alerts + (shown critical - start + 4) / 5
    outcomes : r.sent + r.failed + length acc.alerts ≡ acc.sent + acc.failed + length r.alerts

  done : (start : ℕ) (acc : Sent) → shown critical ≤ start → Covers start acc acc
  done start acc h =
      let none_left : shown critical - start ≡ 0 = omega arith in
      record {
        batches = rw (none_left, take-zero) (sym (append-nil (covered acc.alerts)));
        number = rw none_left (omega arith);
        outcomes = refl;
      }

  -- the batch that a round takes is the next five permits to be shown, or those that are left
  batch_then_rest :
      (start k : ℕ)
      → start ≡ k * 5
      → start < shown critical
      → take 5 (drop start critical)
          ++ take (shown critical - (start + 5)) (drop (start + 5) critical)
        ≡ take (shown critical - start) (drop start critical)
  batch_then_rest start k e h = elim (dec_le 5 (shown critical - start)) [
    | yes full ↦
        let rest : shown critical - (start + 5) ≡ shown critical - start - 5 = omega arith in
        let both : shown critical - start ≡ 5 + (shown critical - start - 5) = omega arith in
        rw (rest, ← drop-drop 5 start critical)
          (take-take-drop 5 (shown critical - start - 5) (drop start critical)
            ∙ ap (λ n. take n (drop start critical)) (sym both))
    | no part ↦
        let none_left : shown critical - (start + 5) ≡ 0 = omega arith in
        let enough : length (drop start critical) ≤ shown critical - start =
          omega (arith, length-drop start critical) in
        rw (none_left, take-zero)
          (append-nil (take 5 (drop start critical))
            ∙ take_all 5 (drop start critical) (omega (arith, length-drop start critical))
            ∙ sym (take_all (shown critical - start) (drop start critical) enough))
  ]

  one_more :
      (start k : ℕ) (acc r : Sent)
      → start ≡ k * 5
      → start < shown critical
      → Covers (start + 5) (send_one delivers critical start acc) r
      → Covers start acc r
  unfolding send_one alert_at
  one_more start k acc r e h c = record {
    batches =
        c.batches
        ∙ ap (λ l. l ++ take (shown critical - (start + 5)) (drop (start + 5) critical))
            (covered-append acc.alerts (alert_at critical start))
        ∙ append_assoc (covered acc.alerts) _ _
        ∙ ap (λ l. covered acc.alerts ++ l) (batch_then_rest start k e h);
    number = omega (arith, c.number, length-append acc.alerts (alert_at critical start ∷ []));
    outcomes = ground (arith, c.outcomes, length-append acc.alerts (alert_at critical start ∷ []));
  }

  send_from-Covers :
      (fuel start k : ℕ) (acc : Sent)
      → start ≡ k * 5
      → shown critical ≤ start + fuel
      → Covers start acc (send_from delivers critical fuel start acc)
  unfolding send_from
  send_from-Covers zero start k acc e h = done start acc (omega arith)
  send_from-Covers (suc fuel) start k acc e h = elim (Bool-cases (ltb start (shown critical))) [
    | inl more ↦ rw more (
        one_more start k acc _ e (ground (arith, more)) (
          send_from-Covers fuel (start + 5) (suc k) (send_one delivers critical start acc)
            (omega arith) (omega arith)))
    | inr over ↦ rw over (done start acc (ground (arith, over)))
  ]

  -- what the run of the loop amounts to
  pub record Delivered (r : Sent) : Type 0 where
    pub batches : covered r.alerts ≡ take 25 critical
    pub number : length r.alerts ≡ (shown critical + 4) / 5
    pub outcomes : r.sent + r.failed ≡ length r.alerts

  take-shown : take (shown critical) critical ≡ take 25 critical
  take-shown = elim (dec_le 25 (length critical)) [
    | yes more ↦ let e : shown critical ≡ 25 = omega arith in ap (λ n. take n critical) e
    | no fewer ↦
        let e : shown critical ≡ length critical = omega arith in
        ap (λ n. take n critical) e
        ∙ take_all (length critical) critical (omega arith)
        ∙ sym (take_all 25 critical (omega arith))
  ]

  -- The messages show, one after the other, exactly the first 25 critical permits in order. Their
  -- number is a fifth of that of the permits shown, rounded up, and as many messages are counted
  -- as sent or as failed.
  pub send_critical-Delivered : Delivered (send_critical delivers critical)
  unfolding send_critical
  send_critical-Delivered =
      let c =
        send_from-Covers (shown critical) 0 0
          (record { sent = 0; failed = 0; alerts = []; pauses = 0 }) (omega arith) (omega arith) in
      let whole : shown critical - 0 ≡ shown critical = omega arith in
      record {
        batches = c.batches ∙ ap (λ n. take n (drop 0 critical)) whole ∙ rw drop-zero take-shown;
        number = omega (arith, c.number);
        outcomes = omega (arith, c.outcomes);
      }

  -- if Slack takes every message, none is counted as failed
  send_from-accepted :
      ((alerts : List Alert) (alert : Alert) → delivers alerts alert ≡ true)
      → (fuel start : ℕ) (acc : Sent)
      → (send_from delivers critical fuel start acc).failed ≡ acc.failed
  unfolding send_from send_one
  send_from-accepted takes zero start acc = refl
  send_from-accepted takes (suc fuel) start acc = elim (Bool-cases (ltb start (shown critical))) [
    | inl more ↦ rw more (
        send_from-accepted takes fuel (start + 5) (send_one delivers critical start acc)
        ∙ rw (takes acc.alerts (alert_at critical start)) refl)
    | inr over ↦ rw over refl
  ]

  pub send_critical-accepted :
      ((alerts : List Alert) (alert : Alert) → delivers alerts alert ≡ true)
      → (send_critical delivers critical).failed ≡ 0
  unfolding send_critical
  send_critical-accepted takes = send_from-accepted takes (shown critical) 0 _
