-- ===== src/Permits/Notify/Messages.antt =====
-- scripts/process_and_notify.py: the layout of the messages, and the text of an alert.
use nobleport.Prelude.{ℕ, zero, suc, ◌-◌, [], ◌∷◌, ◌++◌, length, map}
use nobleport.Python.Text.{Text, codes}
use nobleport.Db.Params.{decimal}
use nobleport.Permits.Process.{Rated}
use nobleport.Permits.Fetch.{today}
use nobleport.Permits.Money.{whole, format_valuation}
use nobleport.Permits.Digest.{join_lines}
use nobleport.Permits.Alerts.{Alert}

-- `c * n` for a character
unfoldable pub repeated : ℕ → Text → Text
repeated zero c = []
repeated (suc n) c = c ++ repeated n c

-- `f"{s:<{width}}"` and `f"{s:>{width}}"`
unfoldable pub ljust : ℕ → Text → Text
unfolding repeated
ljust width s = s ++ repeated (width - length s) (codes " ")

unfoldable pub rjust : ℕ → Text → Text
unfolding repeated
rjust width s = repeated (width - length s) (codes " ") ++ s

abbrev pub bar : Text
bar = codes "━━━━━━━━━━━━━━━━━━━━━━━━━━━━━━━━━━━━━━"

-- U+FE0F, which asks for the coloured form of the character before it
abbrev pub emoji_style : Text
emoji_style = 65_039 ∷ []

abbrev pub money : ℕ → Text
money v = format_valuation (whole v)

-- the entry of a permit in an alert
unfoldable pub alert_entry : Rated → Text
unfolding codes format_valuation
alert_entry r =
    let p = r.permit in
    codes "\n*`"
    ++ p.permit_id
    ++ codes "`* | "
    ++ p.municipality
    ++ codes " | "
    ++ p.permit_type
    ++ codes "\n  💰 *"
    ++ money p.valuation
    ++ codes "* | 📍 "
    ++ p.address
    ++ codes "\n  👷 Contractor: "
    ++ p.contractor
    ++ codes " | Applicant: "
    ++ p.applicant
    ++ codes "\n  📅 Issued: "
    ++ p.issued_date
    ++ codes " | 🔗 "
    ++ p.portal_url

unfoldable pub alert_message : Alert → Text
unfolding alert_entry join_lines codes
alert_message a = join_lines (
    (codes "🔴 *CRITICAL PERMIT ALERTS* — Batch "
        ++ decimal a.batch_num
        ++ codes "/"
        ++ decimal a.total_batches
        ++ codes " | Essex County, MA | "
        ++ today)
      ∷ bar
      ∷ map alert_entry a.batch
    ++ (codes "\n" ++ bar)
      ∷ (codes "_Showing "
          ++ decimal a.first
          ++ codes "–"
          ++ decimal a.last
          ++ codes " of "
          ++ decimal a.total
          ++ codes " critical permits (≥$1M)_")
      ∷ [])
