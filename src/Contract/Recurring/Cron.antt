-- ===== src/Contract/Recurring/Cron.antt =====
-- The invoices of a run of the cron method, and of a run without a date.
use mathlib.Core.List.{map-append}
use projectname.Prelude.{
  or_parts, ok_inj, ℕ, ◌≡◌, refl, sym, ap, ◌∙◌, subst, Bool, true, false, ◌||◌, not, Option, none,
  some, List, [], ◌∷◌, ◌++◌, ◌==◌, arith, if◌then◌else◌, inl, inr, Bool-cases, ok, ran, check_ran,
  raise_if, validation_error, map,
}
use projectname.Contract.Line.{Line}
use projectname.Contract.Invoicing.{get_lines_to_invoice, compute_recurring_next_date, is_due}
use projectname.Contract.Store.{Contract, Store, Env}
use projectname.Contract.Recurring.{
  Invoice, contract_lines, update_each, invoice_lines_chosen, invoice_contract,
  prepare_recurring_invoices_values, prepare_invoice_lines, contracts_to_invoice,
  cron_recurring_create_invoice, or_today,
}
use projectname.Contract.Recurring.Chosen.{is_empty, get_lines_to_invoice-is_due}
use projectname.Contract.Recurring.Owned.{get_lines_to_invoice-All}
use projectname.Contract.Recurring.Others.{
  Unique, Kept, Owned, contract_lines-Owned, update_each-Kept,
}

-- The contract and the date of an invoice.
abbrev pub heading : Invoice → ℕ × ℕ
heading i = (i.contract_id, i.date_invoice)

abbrev pub mem_id : ℕ → List ℕ → Bool
mem_id i [] = false
mem_id i (j ∷ js) = (i == j) || mem_id i js

pub data Distinct : List ℕ → Type 0 where
  no_id : Distinct []
  new_id : {i : ℕ} {is : List ℕ} → mem_id i is ≡ false → Distinct is → Distinct (i ∷ is)

-- The contract is due on the day.
abbrev pub due_on : ℕ → List Line → ℕ → Bool
due_on d lines c = is_due (compute_recurring_next_date (contract_lines c lines)) d

-- Those of the contracts that are due on the day.
abbrev pub due_among : ℕ → List Line → List ℕ → List ℕ
due_among d lines [] = []
due_among d lines (c ∷ cs) =
    let rest = due_among d lines cs in if due_on d lines c then c ∷ rest else rest

due_among-Kept :
    (d c : ℕ) (before after : List Line) (cs : List ℕ)
    → Kept c before after
    → mem_id c cs ≡ false
    → due_among d after cs ≡ due_among d before cs
due_among-Kept d c before after [] k h = refl
due_among-Kept d c before after (x ∷ cs) k h =
    let (other, others) = or_parts (c == x) (mem_id c cs) h in
    rw (k.others x other, due_among-Kept d c before after cs k others) refl

Kept-refl : {c : ℕ} {lines : List Line} → Kept c lines lines
Kept-refl = record { unique = λ u. u; others = λ d n. refl }

abbrev one_if : Bool → ℕ → ℕ → List (ℕ × ℕ)
one_if b c d = if b then (c, d) ∷ [] else []

one_or_none :
    (b : Bool) (c d : ℕ) (cs : List ℕ)
    → one_if b c d ++ map (λ i. (i, d)) cs ≡ map (λ i. (i, d)) (if b then c ∷ cs else cs)
one_or_none true c d cs = refl
one_or_none false c d cs = refl

module _ (env : Env) (journal : ℕ → Bool) where
  none_chosen :
      (d c : ℕ) (ls : List Line) (st : Store)
      → is_empty ls ≡ true
      → invoice_lines_chosen env journal d c ls st ≡ ok ([], st)
  unfolding invoice_lines_chosen
  none_chosen d c [] st h = refl
  none_chosen d c (line ∷ lines) st h = absurd cc

  not_due-none :
      (d c : ℕ) (st : Store)
      → due_on d st.lines c ≡ false
      → invoice_contract env journal d c st ≡ ok ([], st)
  unfolding invoice_contract
  not_due-none d c st late =
      none_chosen d c _ st (get_lines_to_invoice-is_due d (contract_lines c st.lines) ∙ ap not late)

  -- One invoice, and the writes of its lines.
  chosen_one :
      (d c : ℕ) (ls : List Line) (st : Store) (invs : List Invoice) (st' : Store)
      → is_empty ls ≡ false
      → invoice_lines_chosen env journal d c ls st ≡ ok (invs, st')
      → (map heading invs ≡ (c, d) ∷ []) × (update_each env journal ls st ≡ ok st')
  unfolding invoice_lines_chosen
  chosen_one d c [] st invs st' h run = absurd cc
  chosen_one d c (line ∷ lines) st invs st' h run =
      let (has, after) = check_ran (raise_if (not (journal c)) validation_error) _ run in
      let values = ran (prepare_invoice_lines env journal (line ∷ lines)) _ after in
      let written = ran (update_each env journal (line ∷ lines) st) _ values.rest in
      let same = ok_inj written.rest in
      (
        ap (λ (p : List Invoice × Store). map heading p.0) (sym same),
        written.called ∙ ap (λ (p : List Invoice × Store). ok p.1) same,
      )

  invoice_contract-one :
      (d c : ℕ) (st : Store) (invs : List Invoice) (st' : Store)
      → Unique st.lines
      → due_on d st.lines c ≡ true
      → invoice_contract env journal d c st ≡ ok (invs, st')
      → (map heading invs ≡ (c, d) ∷ []) × Kept c st.lines st'.lines
  unfolding invoice_contract
  invoice_contract-one d c st invs st' u now run =
      let lines = contract_lines c st.lines in
      let some_line : is_empty (get_lines_to_invoice d lines) ≡ false =
        get_lines_to_invoice-is_due d lines ∙ ap not now in
      let (one, written) =
        chosen_one d c (get_lines_to_invoice d lines) st invs st' some_line run in
      (
        one,
        update_each-Kept env journal c (get_lines_to_invoice d lines) st st'
            (get_lines_to_invoice-All (Owned c st.lines) d lines
              (contract_lines-Owned c st.lines u))
            written,
      )

  -- What one contract adds, and what it leaves for the others.
  invoice_contract-headings :
      (d c : ℕ) (st : Store) (invs : List Invoice) (st' : Store)
      → Unique st.lines
      → invoice_contract env journal d c st ≡ ok (invs, st')
      → (map heading invs ≡ one_if (due_on d st.lines c) c d) × Kept c st.lines st'.lines
  invoice_contract-headings d c st invs st' u run = elim (Bool-cases (due_on d st.lines c)) [
    | inl e ↦ rw e (invoice_contract-one d c st invs st' u e run)
    | inr e ↦
        let same = ok_inj (sym (not_due-none d c st e) ∙ run) in
        rw e (
          ap (λ (p : List Invoice × Store). map heading p.0) (sym same),
          subst (λ (p : List Invoice × Store). Kept c st.lines p.1.lines) same Kept-refl,
        )
  ]

  prepare-headings :
      (d : ℕ) (cs : List ℕ) (st : Store) (invs : List Invoice) (st' : Store)
      → Unique st.lines
      → Distinct cs
      → prepare_recurring_invoices_values env journal (some d) cs st ≡ ok (invs, st')
      → map heading invs ≡ map (λ c. (c, d)) (due_among d st.lines cs)
  unfolding prepare_recurring_invoices_values
  prepare-headings d [] st invs st' u no_id run =
      ap (λ (p : List Invoice × Store). map heading p.0) (sym (ok_inj run))
  prepare-headings d (c ∷ cs) st invs st' u (new_id other distinct) run =
      let first = ran (invoice_contract env journal d c st) _ run in
      let second =
        ran (prepare_recurring_invoices_values env journal (some d) cs first.value.1) _
          first.rest in
      let (one, kept) =
        invoice_contract-headings d c st first.value.0 first.value.1 u first.called in
      let others =
        prepare-headings d cs first.value.1 second.value.0 second.value.1 (kept.unique u) distinct
          second.called
        ∙ ap (map (λ i. (i, d))) (due_among-Kept d c st.lines first.value.1.lines cs kept other) in
      ap (λ (p : List Invoice × Store). map heading p.0) (sym (ok_inj second.rest))
      ∙ map-append heading first.value.0 second.value.0
      ∙ ap (λ h. h ++ map heading second.value.0) one
      ∙ ap (λ h. one_if (due_on d st.lines c) c d ++ h) others
      ∙ one_or_none (due_on d st.lines c) c d (due_among d st.lines cs)

  searched-due_among :
      (d : ℕ) (lines : List Line) (contracts : List Contract)
      → due_among d lines (contracts_to_invoice env journal d lines contracts)
        ≡ contracts_to_invoice env journal d lines contracts
  unfolding contracts_to_invoice
  searched-due_among d lines [] = refl
  searched-due_among d lines (c ∷ contracts) = elim (Bool-cases (due_on d lines c.id)) [
    | inl e ↦ rw (e, e) (ap (λ is. c.id ∷ is) (searched-due_among d lines contracts))
    | inr e ↦ rw e (searched-due_among d lines contracts)
  ]

  searched-mem_id :
      (i d : ℕ) (lines : List Line) (contracts : List Contract)
      → mem_id i (map (λ (c : Contract). c.id) contracts) ≡ false
      → mem_id i (contracts_to_invoice env journal d lines contracts) ≡ false
  unfolding contracts_to_invoice
  searched-mem_id i d lines [] h = refl
  searched-mem_id i d lines (c ∷ contracts) h =
      let (one, others) =
        or_parts (i == c.id) (mem_id i (map (λ (x : Contract). x.id) contracts)) h in
      let rest = searched-mem_id i d lines contracts others in
      elim (Bool-cases (due_on d lines c.id)) [ inl e ↦ rw (e, one) rest | inr e ↦ rw e rest ]

  searched-Distinct :
      (d : ℕ) (lines : List Line) (contracts : List Contract)
      → Distinct (map (λ (c : Contract). c.id) contracts)
      → Distinct (contracts_to_invoice env journal d lines contracts)
  unfolding contracts_to_invoice
  searched-Distinct d lines [] no_id = no_id
  searched-Distinct d lines (c ∷ contracts) (new_id h distinct) =
      let rest = searched-Distinct d lines contracts distinct in
      elim (Bool-cases (due_on d lines c.id)) [
        | inl e ↦ rw e (new_id (searched-mem_id c.id d lines contracts h) rest)
        | inr e ↦ rw e rest
      ]

  with_date :
      (c d : ℕ) (cs : List ℕ) (st : Store)
      → compute_recurring_next_date (contract_lines c st.lines) ≡ some d
      → prepare_recurring_invoices_values env journal (some d) (c ∷ cs) st
        ≡ prepare_recurring_invoices_values env journal none (c ∷ cs) st
  unfolding prepare_recurring_invoices_values
  with_date c d cs st next = rw (prepare_recurring_invoices_values, next) refl

  -- If no two lines and no two contracts have one id, then a run of the cron method that raises
  -- nothing makes one invoice for each contract that is due on its day when the run starts, with
  -- that day as its date, in the order of the contracts, and no other invoice.
  pub cron_recurring_create_invoice-due :
      (date_ref : Option ℕ) (st : Store) (invs : List Invoice) (st' : Store)
      → Unique st.lines
      → Distinct (map (λ (c : Contract). c.id) st.contracts)
      → cron_recurring_create_invoice env journal date_ref st ≡ ok (invs, st')
      → let d = or_today env.today date_ref in
        map heading invs
        ≡ map (λ c. (c, d)) (contracts_to_invoice env journal d st.lines st.contracts)
  unfolding cron_recurring_create_invoice
  cron_recurring_create_invoice-due date_ref st invs st' u distinct run =
      let d = or_today env.today date_ref in
      prepare-headings d (contracts_to_invoice env journal d st.lines st.contracts) st invs st' u
        (searched-Distinct d st.lines st.contracts distinct) run
      ∙ ap (map (λ c. (c, d))) (searched-due_among d st.lines st.contracts)

  -- Without a date, the contracts are invoiced with the next invoice date of the first one: if no
  -- two lines have one id and no contract is given twice, a run that raises nothing makes one
  -- invoice for the first contract and for each other one that is due on that date, with that
  -- date, and none for those that are due later.
  pub prepare_recurring_invoices_values-first :
      (c d : ℕ) (cs : List ℕ) (st : Store) (invs : List Invoice) (st' : Store)
      → Unique st.lines
      → Distinct (c ∷ cs)
      → compute_recurring_next_date (contract_lines c st.lines) ≡ some d
      → prepare_recurring_invoices_values env journal none (c ∷ cs) st ≡ ok (invs, st')
      → map heading invs ≡ map (λ i. (i, d)) (c ∷ due_among d st.lines cs)
  prepare_recurring_invoices_values-first c d cs st invs st' u distinct next run =
      let now : due_on d st.lines c ≡ true = rw next (ground arith) in
      prepare-headings d (c ∷ cs) st invs st' u distinct (with_date c d cs st next ∙ run)
      ∙ rw now refl
