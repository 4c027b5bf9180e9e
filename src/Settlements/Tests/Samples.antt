-- ===== src/Settlements/Tests/Samples.antt =====
-- A calendar in which all months have thirty-one days, and the books of a company with two agents.
use projectname.Prelude.{
  ℕ, ◌+◌, ◌-◌, ◌/◌, ◌%◌, ◌≤◌, ◌≡◌, refl, Bool, true, false, not, ◌&&◌, some, sym, ap, ◌∙◌, ◌==◌,
  ◌*◌, inl, inr, Bool-cases, List, [], ◌∷◌, arith, leb, ltb, if◌then◌else◌,
}
use projectname.Settlements.Date.{Date, first_of, before, DateArithmetic}
use projectname.Settlements.Period.{monthly, quaterly}
use projectname.Settlements.Database.{Partner, AgentLine, Database}
use projectname.Settlements.States.{Books}

abbrev is_date : Date → Bool
is_date d =
    leb 1 d.year
    && leb d.year 9999
    && leb 1 d.month
    && leb d.month 12
    && leb 1 d.day
    && leb d.day 31

abbrev plus_months : Date → ℕ → Date
plus_months d n = record d {
  year = d.year + (d.month - 1 + n) / 12;
  month = (d.month - 1 + n) % 12 + 1;
}

abbrev plus_years : Date → ℕ → Date
plus_years d n = record d { year = d.year + n }

abbrev day_before : Date → Date
day_before d =
    if ltb 1 d.day
    then record d { day = d.day - 1 }
    else if ltb 1 d.month
    then record d { month = d.month - 1; day = 31 }
    else record { year = d.year - 1; month = 12; day = 31 }

pub month_pos : (d : Date) → is_date d ≡ true → 1 ≤ d.month
month_pos d h = ground arith

pub month_le : (d : Date) → is_date d ≡ true → d.month ≤ 12
month_le d h = ground arith

pub day_pos : (d : Date) → is_date d ≡ true → 1 ≤ d.day
day_pos d h = ground arith

pub year_pos : (d : Date) → is_date d ≡ true → 1 ≤ d.year
year_pos d h = ground arith

pub first_is_date : (y m : ℕ) → 1 ≤ y → y ≤ 9999 → 1 ≤ m → m ≤ 12 → is_date (first_of y m) ≡ true
first_is_date y m a b c d = ground arith

-- The days from the year 0, where all months have thirty-one.
abbrev index : Date → ℕ
index d = (d.year * 12 + (d.month - 1)) * 31 + (d.day - 1)

record InMonth (d : Date) : Type 0 where
  low : 1 ≤ d.month
  high : d.month ≤ 12
  first : 1 ≤ d.day
  last : d.day ≤ 31

date-InMonth : (d : Date) → is_date d ≡ true → InMonth d
date-InMonth d h = record {
  low = month_pos d h;
  high = month_le d h;
  first = day_pos d h;
  last = ground arith;
}

before-index : (a b : Date) → InMonth a → InMonth b → before a b ≡ ltb (index a) (index b)
unfolding before
before-index a b h k = elim (Bool-cases (a.year == b.year)) [
  | inl y ↦ elim (Bool-cases (a.month == b.month)) [
    | inl m ↦ rw (y, m) (ground (arith, h.low, h.high, h.first, h.last, k.first, k.last))
    | inr m ↦
        rw (y, m) (ground (arith, h.low, h.high, h.first, h.last, k.low, k.high, k.first, k.last))
  ]
  | inr y ↦ rw y (ground (arith, h.low, h.high, h.first, h.last, k.low, k.high, k.first, k.last))
]

index-day_before :
    (e : Date)
    → InMonth e
    → 1 ≤ e.year
    → InMonth (day_before e) × (index (day_before e) + 1 ≡ index e)
index-day_before e h y = elim (Bool-cases (ltb 1 e.day)) [
  | inl d ↦ rw d (
    record { low = h.low; high = h.high; first = ground arith; last = ground (arith, h.last) },
    ground (arith, h.first),
  )
  | inr d ↦ rw d (elim (Bool-cases (ltb 1 e.month)) [
    | inl m ↦ rw m (
      record {
        low = ground arith;
        high = ground (arith, h.high);
        first = omega arith;
        last = omega arith;
      },
      ground (arith, h.first, h.low),
    )
    | inr m ↦ rw m (
      record { low = omega arith; high = omega arith; first = omega arith; last = omega arith },
      ground (arith, h.first, h.low, y),
    )
  ])
]

pub after_day_before :
    (d e earlier : Date)
    → is_date d ≡ true
    → is_date e ≡ true
    → is_date earlier ≡ true
    → before earlier e ≡ true
    → before (day_before e) d ≡ not (before d e)
after_day_before d e earlier h k l m =
    let (within, one_less) = index-day_before e (date-InMonth e k) (year_pos e k) in
    before-index (day_before e) d within (date-InMonth d h)
    ∙ later (index (day_before e)) (index e) (index d) one_less
    ∙ sym (ap not (before-index d e (date-InMonth d h) (date-InMonth e k)))
  where
    later : (a b c : ℕ) → a + 1 ≡ b → ltb a c ≡ not (ltb c b)
    later a b c h = ground arith

abbrev pub long_months : DateArithmetic
long_months = record {
  is_date = is_date;
  plus_months = plus_months;
  plus_years = plus_years;
  day_before = day_before;
  month_pos = month_pos;
  month_le = month_le;
  day_pos = day_pos;
  year_pos = year_pos;
  first_is_date = first_is_date;
  plus_months_first = λ y m n a b c. refl;
  plus_years_first = λ y m n a. refl;
  after_day_before = after_day_before;
}

abbrev pub date : ℕ → ℕ → ℕ → Date
date y m d = record { year = y; month = m; day = d }

abbrev pub clerk : Partner
clerk = record { id = 1; agent = true; settlement = monthly }

abbrev pub broker : Partner
broker = record { id = 2; agent = true; settlement = quaterly }

abbrev pub line : ℕ → ℕ → ℕ → Date → AgentLine
line i agent company d = record {
  id = i;
  agent_id = agent;
  company_id = company;
  invoice_date = some d;
  payment_based = false;
  invoice_paid = false;
  invoice_posted = true;
}

-- The last line is on an invoice that is not paid, of a commission that waits for the payment.
abbrev pub agent_lines : List AgentLine
agent_lines =
    line 10 1 5 (date 2022 1 10)
    ∷ line 11 2 5 (date 2022 1 20)
    ∷ line 12 1 6 (date 2022 1 31)
    ∷ line 13 1 5 (date 2022 1 31)
    ∷ line 14 1 5 (date 2022 2 2)
    ∷ record (line 15 1 5 (date 2022 2 3)) { payment_based = true }
    ∷ []

abbrev pub tables : Database
tables = record { agent_lines = agent_lines; settlements = []; settlement_lines = []; next_id = 1 }

abbrev pub books : Books
books = record { db = tables; moves = []; next_move = 1 }
