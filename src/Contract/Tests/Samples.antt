-- ===== src/Contract/Tests/Samples.antt =====
-- A calendar of thirty-day months that starts on day 0, and contract lines to try the methods on.
use mathlib.Core.List.{append_assoc, append-nil}
use projectname.Prelude.{
  ℕ, suc, ◌+◌, ◌-◌, ◌*◌, ◌/◌, ◌≤◌, ◌<◌, ◌≡◌, refl, Bool, true, false, none, some, arith, List, [],
  ◌∷◌, ◌++◌, ◌&&◌, ◌||◌,
}
use projectname.Contract.Calendar.{
  RelativeDelta, days, weeks, months, months_first_day, years, Calendar,
}
use projectname.Contract.Line.{Line, monthly, yearly, post_paid}
use projectname.Contract.State.{Token, both, either, leaf}
use projectname.Contract.State.Search.{
  Condition, test, all_of, any_of, tokens, holds, holds_leaf, DomainSearch,
}

abbrev plus : ℕ → RelativeDelta → ℕ
plus d (days n) = d + n
plus d (weeks n) = d + 7 * n
plus d (months n) = d + 30 * n
plus d (months_first_day n) = (d / 30 + n) * 30
plus d (years n) = d + 360 * n

abbrev minus : ℕ → RelativeDelta → ℕ
minus d (days n) = d - n
minus d (weeks n) = d - 7 * n
minus d (months n) = d - 30 * n
minus d (months_first_day n) = (d / 30 - n) * 30
minus d (years n) = d - 360 * n

pub plus_mono : (r : RelativeDelta) (d e : ℕ) → d ≤ e → plus d r ≤ plus e r
plus_mono (days n) d e h = omega arith
plus_mono (weeks n) d e h = omega arith
plus_mono (months n) d e h = omega arith
plus_mono (months_first_day n) d e h = omega arith
plus_mono (years n) d e h = omega arith

pub minus_days : (d n : ℕ) → n ≤ d → d - n + n ≡ d
minus_days d n h = omega arith

pub months_grow : (d n : ℕ) → 0 < n → d < d + 30 * n
months_grow d n h = omega arith

pub first_day_grows : (d n : ℕ) → 0 < n → d < (d / 30 + n) * 30
first_day_grows d n h = omega arith

pub first_day_next : (d n : ℕ) → (d / 30 + n) * 30 < (d / 30 + suc n) * 30
first_day_next d n = omega arith

pub minus_first_day :
    (d e n : ℕ)
    → (d / 30 + n) * 30 ≤ e
    → e < (d / 30 + suc n) * 30
    → (e / 30 - n) * 30 ≡ (d / 30 + 0) * 30
minus_first_day d e n h k = let month : e / 30 ≡ d / 30 + n = omega arith in rw month (omega arith)

pub years_grow : (d n : ℕ) → 0 < n → d < d + 360 * n
years_grow d n h = omega arith

abbrev pub thirty_day_months : Calendar
thirty_day_months = record {
  plus = plus;
  minus = minus;
  plus_days = λ d n. refl;
  minus_days = minus_days;
  plus_weeks = λ d n. refl;
  months_grow = months_grow;
  first_day_grows = first_day_grows;
  first_day_next = first_day_next;
  minus_first_day = minus_first_day;
  years_grow = years_grow;
  plus_mono = plus_mono;
}

-- A monthly line from day 1000 to day 1099, post-paid, never invoiced.
abbrev pub hundred_days : Line
hundred_days = record {
  id = 1;
  contract_id = 7;
  display_type = none;
  note_invoicing_mode = none;
  date_start = 1000;
  date_end = some 1099;
  recurring_next_date = some 1030;
  last_date_invoiced = none;
  termination_notice_date = some 1069;
  recurring_rule_type = monthly;
  recurring_interval = 1;
  recurring_invoicing_type = post_paid;
  is_canceled = false;
  is_auto_renew = false;
  manual_renew_needed = false;
  auto_renew_rule_type = yearly;
  auto_renew_interval = 1;
  termination_notice_rule_type = monthly;
  termination_notice_interval = 1;
  successor_contract_line_id = none;
  predecessor_contract_line_id = none;
}

-- A reader of domains: the values of the conditions, from the right.
abbrev combine : Token → Line → List Bool → List Bool
combine (leaf l) rec values = holds_leaf l rec ∷ values
combine both rec (a ∷ b ∷ values) = (a && b) ∷ values
combine either rec (a ∷ b ∷ values) = (a || b) ∷ values
combine _ rec values = values

abbrev read : List Token → Line → List Bool
read [] rec = []
read (t ∷ ts) rec = combine t rec (read ts rec)

abbrev first_value : List Bool → Bool
first_value [] = true
first_value (b ∷ bs) = b

read-tokens :
    (c : Condition) (rec : Line) (rest : List Token)
    → read (tokens c ++ rest) rec ≡ holds c rec ∷ read rest rec
read-tokens (test l) rec rest = refl
read-tokens (all_of c d) rec rest = rw (
  append_assoc (tokens c) (tokens d) rest,
  read-tokens c rec (tokens d ++ rest),
  read-tokens d rec rest,
)
read-tokens (any_of c d) rec rest = rw (
  append_assoc (tokens c) (tokens d) rest,
  read-tokens c rec (tokens d ++ rest),
  read-tokens d rec rest,
)

pub reads_prefix : (c : Condition) (rec : Line) → first_value (read (tokens c) rec) ≡ holds c rec
reads_prefix c rec = rw (← append-nil (tokens c), read-tokens c rec [])

abbrev pub from_the_right : DomainSearch
from_the_right = record {
  matches = λ domain rec. first_value (read domain rec);
  prefix_notation = reads_prefix;
}
