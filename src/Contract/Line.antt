-- ===== src/Contract/Line.antt =====
-- The record of a contract line: the fields of local/Contract/models/contract_line.py and
-- local/Contract/models/abstract_contract_line.py that its methods read or write, and the two
-- computed fields that depend on selections alone. A reference to another record is its id, and
-- `none` is Odoo's False. `date_start` is a required field, so the tests of its truth always pass.
use projectname.Prelude.{ℕ, Bool, true, false, Option, some, ◌||◌, ◌&&◌, if◌then◌else◌}

pub data RuleType : Type 0 where
  daily weekly monthly monthlylastday quarterly semesterly yearly : RuleType

pub data InvoicingType : Type 0 where
  pre_paid post_paid : InvoicingType

pub data DisplayType : Type 0 where
  line_section line_note : DisplayType

pub data NoteInvoicingMode : Type 0 where
  with_previous_line with_next_line custom : NoteInvoicingMode

pub record Line : Type 0 where
  pub id : ℕ
  pub contract_id : ℕ
  pub display_type : Option DisplayType
  pub note_invoicing_mode : Option NoteInvoicingMode
  pub date_start : ℕ
  pub date_end : Option ℕ
  pub recurring_next_date : Option ℕ
  pub last_date_invoiced : Option ℕ
  pub termination_notice_date : Option ℕ
  pub recurring_rule_type : RuleType
  pub recurring_interval : ℕ
  pub recurring_invoicing_type : InvoicingType
  pub is_canceled : Bool
  pub is_auto_renew : Bool
  pub manual_renew_needed : Bool
  pub auto_renew_rule_type : RuleType
  pub auto_renew_interval : ℕ
  pub termination_notice_rule_type : RuleType
  pub termination_notice_interval : ℕ
  pub successor_contract_line_id : Option ℕ
  pub predecessor_contract_line_id : Option ℕ

abbrev pub is_pre_paid : InvoicingType → Bool
is_pre_paid pre_paid = true
is_pre_paid post_paid = false

abbrev pub is_monthlylastday : RuleType → Bool
is_monthlylastday monthlylastday = true
is_monthlylastday _ = false

unfoldable pub get_default_recurring_invoicing_offset : InvoicingType → RuleType → ℕ
get_default_recurring_invoicing_offset recurring_invoicing_type recurring_rule_type =
    if is_pre_paid recurring_invoicing_type || is_monthlylastday recurring_rule_type then 0 else 1

-- the computed field
unfoldable pub recurring_invoicing_offset : Line → ℕ
unfolding get_default_recurring_invoicing_offset
recurring_invoicing_offset rec =
    get_default_recurring_invoicing_offset rec.recurring_invoicing_type rec.recurring_rule_type

is_line_note : Option DisplayType → Bool
is_line_note (some line_note) = true
is_line_note _ = false

is_custom : Option NoteInvoicingMode → Bool
is_custom (some custom) = true
is_custom _ = false

-- the computed field
unfoldable pub is_recurring_note : Line → Bool
unfolding is_line_note is_custom
is_recurring_note rec = is_line_note rec.display_type && is_custom rec.note_invoicing_mode
