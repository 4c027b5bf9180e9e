-- ===== src/Settlements/Reach.antt =====
-- Sequences of operations on settlements and on their invoices.
use projectname.Prelude.{ℕ, ◌≤◌, ◌≡◌, sym, ap, ◌∙◌, subst, Option, List, [], ◌∷◌, ok, ok_inj}
use projectname.Settlements.Date.{Date, first_of, DateArithmetic}
use projectname.Settlements.Database.{Partner, AgentLine, Database}
use projectname.Settlements.Settle.{action_settle}
use projectname.Settlements.Action.{InDateOrder}
use projectname.Settlements.States.{Books, action_cancel, unlink, button_create, button_cancel}
use projectname.Settlements.Due.{id_count}
use projectname.Settlements.Once.{once, action_settle-once}
use projectname.Settlements.Single.{Single}
use projectname.Settlements.Paid.{settled-Single, action_cancel-Single, unlink-Single}
use projectname.Settlements.Billed.{
  AllSettled, make_invoices-Single, search_settled-AllSettled, button_cancel-Single,
}

-- The lines have ids of their own, and are in the order of their dates.
pub record Listed (dates : DateArithmetic) (lines : List AgentLine) : Type 0 where
  pub in_order : InDateOrder dates (first_of 1900 1) lines
  pub unique : (i : ℕ) → id_count i lines ≤ 1

abbrev pub with_lines : Books → List AgentLine → Books
with_lines b lines = record b { db = record b.db { agent_lines = lines } }

-- One operation that raises nothing: the wizard that settles, a settlement canceled or deleted, the
-- wizard that invoices, for the settlements it finds or for those that its field offers, which are
-- settled, the cancellation of invoices, and any change of the lines of agents.
pub data Step (dates : DateArithmetic) (b : Books) : Books → Type 0 where
  settles :
      (date_to : Date) (agent_ids partners : List Partner) (window : Option (List ℕ))
      (db' : Database)
      → Listed dates b.db.agent_lines
      → action_settle dates date_to agent_ids partners b.db ≡ ok (window, db')
      → Step dates b (record b { db = db' })
  cancels : {b' : Books} (ids : List ℕ) → action_cancel ids b ≡ ok b' → Step dates b b'
  deletes : {b' : Books} (ids : List ℕ) → unlink ids b ≡ ok b' → Step dates b b'
  invoices_found : {b' : Books} (company : ℕ) → button_create company [] b ≡ ok b' → Step dates b b'
  invoices_chosen :
      {b' : Books} (company i : ℕ) (is : List ℕ)
      → AllSettled (i ∷ is) b.db.settlements
      → button_create company (i ∷ is) b ≡ ok b'
      → Step dates b b'
  cancels_invoices : (ids : List ℕ) → Step dates b (button_cancel ids b)
  changes_lines : (lines : List AgentLine) → Step dates b (with_lines b lines)

pub data Reach (dates : DateArithmetic) (b : Books) : Books → Type 0 where
  here : Reach dates b b
  next : {c d : Books} → Reach dates b c → Step dates c d → Reach dates b d

settles-Single :
    (dates : DateArithmetic) (b : Books) (date_to : Date) (agent_ids partners : List Partner)
    (window : Option (List ℕ)) (db' : Database)
    → Listed dates b.db.agent_lines
    → action_settle dates date_to agent_ids partners b.db ≡ ok (window, db')
    → Single b
    → Single (record b { db = db' })
settles-Single dates b date_to agent_ids partners window db' l h v =
    let (ids, db, runs, once) =
      action_settle-once dates date_to agent_ids partners b.db l.in_order l.unique v.numbered in
    let same : db ≡ db' = ap (λ r. r.1) (ok_inj (sym runs ∙ h)) in
    subst (λ d. Single (record b { db = d })) same (settled-Single _ b db once v)

Step-Single : {dates : DateArithmetic} {b b' : Books} → Step dates b b' → Single b → Single b'
unfolding button_create
Step-Single (settles date_to agent_ids partners window db' l h) v =
    settles-Single _ _ date_to agent_ids partners window db' l h v
Step-Single (cancels ids h) v = action_cancel-Single ids _ _ h v
Step-Single (deletes ids h) v = unlink-Single ids _ _ h v
Step-Single (invoices_found company h) v =
    make_invoices-Single _ _ _ (search_settled-AllSettled company _ (v.numbered.unique)) h v
Step-Single (invoices_chosen company i is s h) v = make_invoices-Single (i ∷ is) _ _ s h v
Step-Single (cancels_invoices ids) v = button_cancel-Single ids _ v
Step-Single (changes_lines lines) v = record {
  numbered = record { unique = v.numbered.unique; fresh = v.numbered.fresh };
  single = v.single;
  invoices = v.invoices;
}

-- From books where each line of an agent is in one settlement at most that is not canceled, and
-- where the settlements of invoices have been invoiced, the same holds after any operations, in any
-- order.
pub Reach-Single : {dates : DateArithmetic} {b b' : Books} → Single b → Reach dates b b' → Single b'
Reach-Single v here = v
Reach-Single v (next r s) = Step-Single s (Reach-Single v r)
