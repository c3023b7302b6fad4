-- ===== src/Jobs/Alerts.antt =====
-- The list of alerts.
use alike.Base.{
  ℕ, zero, suc, ◌-◌, String, List, [], ◌∷◌, ◌≡◌, refl, sym, false, ap, arith, leb, ◌==◌,
  if◌then◌else◌, length, take, show, ◌<>◌, ◌∙◌,
}
use text.Mathlib.TextLemmas.{append-nil, append_assoc}
use alike.Jobs.{Alert, alert_row, more_row, alert_rows, show_alerts}

abbrev pub rows : ℕ → List Alert → String
rows now [] = ""
rows now (r ∷ rs) = alert_row now r <> rows now rs

none_left : (max : ℕ) → leb (suc max) 0 ≡ false
none_left max = ground arith

one_less : (max : ℕ) → suc (suc max) - 1 ≡ suc max
one_less max = omega arith

not_last : (max : ℕ) → (suc max == 0) ≡ false
not_last max = ground arith

same_test : (max n : ℕ) → leb (suc (suc max)) (suc n) ≡ leb (suc max) n
same_test max n = ground arith

-- At most `max` rows are shown, and behind the last of them, if there are as many, the number of
-- those that are left.
alert_rows_lem :
    (now total max : ℕ) (l : List Alert)
    → alert_rows now total (suc max) l
      ≡ rows now (take (suc max) l)
        <> (if leb (suc max) (length l) then more_row (total - 10) else "")
unfolding alert_rows
alert_rows_lem now total max [] = rw (none_left max) (sym (append-nil ""))
alert_rows_lem now total zero (r ∷ rs) = ground (arith, append-nil (alert_row now r))
alert_rows_lem now total (suc max) (r ∷ rs) =
    rw (one_less max, not_last max, same_test max (length rs))
      (ap (λ t. alert_row now r <> t) (alert_rows_lem now total max rs)
        ∙ sym (append_assoc (alert_row now r) (rows now (take (suc max) rs)) _))

-- The page shows the first ten alerts. Exactly from ten alerts on, also for ten, a line tells how
-- many more there are. The badge and the header show the number of all, and the badge nothing if
-- there are none.
pub show_alerts_lem :
    (now : ℕ) (all : List Alert)
    → show_alerts now all ≡ (
      rows now (take 10 all) <> (if leb 10 (length all) then more_row (length all - 10) else ""),
      (if length all == 0 then "" else show (length all)),
      show (length all),
    )
unfolding show_alerts
show_alerts_lem now all = rw (alert_rows_lem now (length all) 9 all) refl
