-- ===== src/Contract/Store/Laws.antt =====
-- What is found in the store after a line is replaced or added, and what a write has checked.
use projectname.Prelude.{
  ℕ, ◌≡◌, refl, true, Option, none, some, List, [], ◌∷◌, ◌++◌, Check, ok, check_ran, ◌==◌,
  if◌then◌else◌, arith, inl, inr, Bool-cases, ◌||◌,
}
use projectname.Contract.Calendar.{Calendar}
use projectname.Contract.Line.{Line}
use projectname.Contract.Checks.{
  Field, has_field, validate, constrains, check_allowed, check_overlap_predecessor,
  check_overlap_successor,
}
use projectname.Contract.State.{compute_termination_notice_date}
use projectname.Contract.Store.{Store, Env, find_line, put_line, linked, recompute, write_line}

pub find_line-id :
    (i : ℕ) (lines : List Line) (rec : Line) → find_line i lines ≡ some rec → rec.id ≡ i
unfolding find_line
find_line-id i [] rec h = cc
find_line-id i (l ∷ lines) rec h = ground (arith, find_line-id i lines rec)

pub find_line-put_line :
    (rec old : Line) (lines : List Line) (j : ℕ)
    → find_line rec.id lines ≡ some old
    → find_line j (put_line rec lines) ≡ (if rec.id == j then some rec else find_line j lines)
unfolding find_line put_line
find_line-put_line rec old [] j h = cc
find_line-put_line rec old (l ∷ lines) j h = ground (arith, find_line-put_line rec old lines j)

abbrev pub found_or : Option Line → Option Line → Option Line
found_or none o = o
found_or (some rec) o = some rec

pub find_line-append :
    (lines : List Line) (rec : Line) (j : ℕ)
    → find_line j (lines ++ (rec ∷ []))
      ≡ found_or (find_line j lines) (if rec.id == j then some rec else none)
unfolding find_line
find_line-append [] rec j = ground arith
find_line-append (l ∷ lines) rec j = ground (arith, find_line-append lines rec j)

-- The two lines agree in what links them to others.
pub record SameLinks (a b : Line) : Type 0 where
  pub id : a.id ≡ b.id
  pub predecessor : a.predecessor_contract_line_id ≡ b.predecessor_contract_line_id
  pub successor : a.successor_contract_line_id ≡ b.successor_contract_line_id
  pub date_start : a.date_start ≡ b.date_start
  pub date_end : a.date_end ≡ b.date_end

notice-SameLinks :
    (cal : Calendar) (rec : Line) → SameLinks (compute_termination_notice_date cal rec) rec
unfolding compute_termination_notice_date
notice-SameLinks cal rec = ground arith

pub recompute-SameLinks :
    (env : Env) (w : List Field) (rec : Line) → SameLinks (recompute env w rec) rec
unfolding recompute
recompute-SameLinks env w rec = elim (Bool-cases (has_field Field.date_end w)) [
  | inl written ↦ rw written (notice-SameLinks env.calendar rec)
  | inr unwritten ↦ rw unwritten (record {
    id = refl;
    predecessor = refl;
    successor = refl;
    date_start = refl;
    date_end = refl;
  })
]

-- The constraints on a neighbour that a write of the fields `w` has checked.
pub record Checked (w : List Field) (rec : Line) (predecessor successor : Option Line)
    : Type 0 where
  pub with_predecessor :
      has_field Field.date_start w ≡ true → check_overlap_predecessor rec predecessor ≡ ok tt
  pub with_successor :
      (has_field Field.date_end w || has_field Field.successor_contract_line_id w) ≡ true
      → (check_allowed rec ≡ ok tt) × (check_overlap_successor rec successor ≡ ok tt)

links_checked :
    (w : List Field) (check : Check)
    → (has_field Field.date_end w || has_field Field.successor_contract_line_id w) ≡ true
    → (constrains
          (Field.is_auto_renew ∷ Field.successor_contract_line_id ∷ Field.date_end ∷ [])
          w
          check
        ≡ check)
      × (constrains (Field.successor_contract_line_id ∷ Field.date_end ∷ []) w check ≡ check)
unfolding constrains
links_checked w check h = ground arith

start_checked :
    (w : List Field) (check : Check)
    → has_field Field.date_start w ≡ true
    → constrains (Field.predecessor_contract_line_id ∷ Field.date_start ∷ []) w check ≡ check
unfolding constrains
start_checked w check h = ground arith

validate-Checked :
    (w : List Field) (rec : Line) (p s : Option Line)
    → validate w rec p s ≡ ok tt
    → Checked w rec p s
unfolding validate
validate-Checked w rec p s h = record {
  with_predecessor = λ d. ground (arith, start_checked w (check_overlap_predecessor rec p) d);
  with_successor = λ d. ground (
    arith,
    links_checked w (check_allowed rec) d,
    links_checked w (check_overlap_successor rec s) d,
  );
}

-- A write that succeeds has put the recomputed line into the store and checked its neighbours.
pub record Written (env : Env) (w : List Field) (rec : Line) (st st' : Store) : Type 0 where
  pub stores : st' ≡ record st { lines = put_line (recompute env w rec) st.lines }
  pub checked :
      let lines = put_line (recompute env w rec) st.lines in
      Checked w
        (recompute env w rec)
        (linked lines (recompute env w rec).predecessor_contract_line_id)
        (linked lines (recompute env w rec).successor_contract_line_id)

pub write_line-Written :
    (env : Env) (w : List Field) (rec : Line) (st st' : Store)
    → write_line env w rec st ≡ ok st'
    → Written env w rec st st'
unfolding write_line
write_line-Written env w rec st st' h =
    let rec' = recompute env w rec in
    let lines = put_line rec' st.lines in
    let (valid, done) =
      check_ran
        (validate w rec' (linked lines rec'.predecessor_contract_line_id)
          (linked lines rec'.successor_contract_line_id))
        (ok (record st { lines = lines })) h in
    record { stores = cc done; checked = validate-Checked w rec' _ _ valid }

pub some_eq : (a b : Line) → some a ≡ some b → a ≡ b
some_eq a b h = cc

pub none-some : (a : Line) → none ≡ some a → ⊥
none-some a h = cc
