-- ===== src/Contract/Store.antt =====
-- The records that the methods of the addon read and write: contract lines, contracts and the
-- messages that are posted on contracts; reading a record, writing it with its stored computed
-- field and its constraints, and creating a line.
pub mod Laws
pub mod Links
pub mod Sound
pub mod Writes
pub use projectname.Prelude.{or_missing}
use projectname.Prelude.{
  ℕ, zero, suc, Bool, true, false, ◌||◌, Option, none, some, List, [], ◌∷◌, ◌++◌, Result, ok, err,
  missing_error, ◌>>=◌, ◌>>◌, ◌==◌, if◌then◌else◌,
}
use projectname.Contract.Calendar.{Calendar}
use projectname.Contract.Line.{Line}
use projectname.Contract.Checks.{Field, has_field, validate}
use projectname.Contract.Criteria.{Allowed}
use projectname.Contract.Allowed.{compute_allowed}
use projectname.Contract.State.{compute_termination_notice_date}

-- `create_new_line_at_contract_line_renew` is the field of the contract's company.
pub record Contract : Type 0 where
  pub id : ℕ
  pub create_new_line_at_contract_line_renew : Bool
  pub is_terminated : Bool
  pub terminate_reason_id : Option ℕ
  pub terminate_comment : Option ℕ
  pub terminate_date : Option ℕ

-- A message on a contract. A line is named by its id.
pub data Message : Type 0 where
  lines_canceled lines_uncanceled : List ℕ → Message
  line_stopped : ℕ → Option ℕ → Option ℕ → Message
  successor_planned : ℕ → ℕ → Option ℕ → Message
  line_suspended line_renewed : ℕ → ℕ → ℕ → Message

pub record Store : Type 0 where
  pub lines : List Line
  pub next_id : ℕ
  pub contracts : List Contract
  pub messages : List (ℕ × Message)

-- What the methods ask of the session: dateutil, today's date and the user's group.
pub record Env : Type 0 where
  pub calendar : Calendar
  pub today : ℕ
  pub can_terminate_contract : Bool

unfoldable pub find_line : ℕ → List Line → Option Line
find_line i [] = none
find_line i (rec ∷ lines) = if rec.id == i then some rec else find_line i lines

unfoldable pub put_line : Line → List Line → List Line
put_line rec [] = []
put_line rec (l ∷ lines) = if l.id == rec.id then rec ∷ lines else l ∷ put_line rec lines

unfoldable pub find_contract : ℕ → List Contract → Option Contract
find_contract i [] = none
find_contract i (c ∷ contracts) = if c.id == i then some c else find_contract i contracts

unfoldable pub put_contract : Contract → List Contract → List Contract
put_contract c [] = []
put_contract c (d ∷ contracts) =
    if d.id == c.id then c ∷ contracts else d ∷ put_contract c contracts

abbrev pub browse : Store → ℕ → Result Line
browse st i = or_missing (find_line i st.lines)

-- The record that a reference leads to.
abbrev pub linked : List Line → Option ℕ → Option Line
linked lines none = none
linked lines (some i) = find_line i lines

abbrev pub message_post : ℕ → Message → Store → Store
message_post contract m st = record st { messages = st.messages ++ ((contract, m) ∷ []) }

-- The stored computed field follows a write of the end date.
unfoldable pub recompute : Env → List Field → Line → Line
unfolding has_field
recompute env written rec =
    if has_field Field.date_end written
    then compute_termination_notice_date env.calendar rec
    else rec

-- A write of some fields of a record that has been read, and the check of its constraints.
unfoldable pub write_line : Env → List Field → Line → Store → Result Store
write_line env written rec st =
    let rec' = recompute env written rec in
    let lines = put_line rec' st.lines in
    do
      validate written rec' (linked lines rec'.predecessor_contract_line_id)
          (linked lines rec'.successor_contract_line_id)
      ok (record st { lines = lines })

abbrev pub all_fields : List Field
all_fields =
    Field.is_auto_renew ∷ Field.successor_contract_line_id ∷ Field.predecessor_contract_line_id
    ∷ Field.date_start ∷ Field.date_end ∷ Field.recurring_next_date ∷ Field.last_date_invoiced
    ∷ Field.is_canceled ∷ Field.manual_renew_needed ∷ []

-- A new line from the values given, but for its id, which is fresh. It is the last of the lines.
unfoldable pub create_line : Env → Line → Store → Result (ℕ × Store)
create_line env values st =
    let rec = recompute env all_fields (record values { id = st.next_id }) in
    let lines = st.lines ++ (rec ∷ []) in
    do
      validate all_fields rec (linked lines rec.predecessor_contract_line_id)
          (linked lines rec.successor_contract_line_id)
      ok (st.next_id, record st { lines = lines; next_id = suc st.next_id })

abbrev pub terminated : Option Contract → Bool
terminated none = false
terminated (some c) = c.is_terminated

abbrev successor_of : Option Line → Option ℕ
successor_of none = none
successor_of (some rec) = rec.successor_contract_line_id

-- The five computed fields of a line in the store.
unfoldable pub allowed_for : Env → Store → Line → Allowed
allowed_for env st rec =
    compute_allowed env.today (terminated (find_contract rec.contract_id st.contracts)) rec
      (successor_of (linked st.lines rec.predecessor_contract_line_id))
