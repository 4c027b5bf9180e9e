-- ===== src/Contract/Recurring/Others.antt =====
-- What an invoice does to the lines of other contracts.
use projectname.Prelude.{
  ok_inj, some_inj, or_missing-found, ℕ, ◌≡◌, refl, sym, ap, ◌∙◌, subst, Bool, false, Option, none,
  some, List, [], ◌∷◌, ◌==◌, ==_iff, arith, inl, inr, Bool-cases, ok, ran, check_ran,
}
use projectname.Contract.Calendar.{Calendar}
use projectname.Contract.Line.{Line}
use projectname.Contract.Period.{next_period_date_end}
use projectname.Contract.Checks.{validate}
use projectname.Contract.Billing.{invoiced_until, update_recurring_next_date}
use projectname.Contract.Store.{Store, Env, find_line, put_line, browse}
use projectname.Contract.Store.Laws.{find_line-id, find_line-put_line}
use projectname.Contract.Recurring.{contract_lines, update_each}
use projectname.Contract.Recurring.Owned.{All, none_left, one_more}

-- No id twice.
pub data Unique : List Line → Type 0 where
  no_line : Unique []
  another :
      {line : Line} {lines : List Line}
      → find_line line.id lines ≡ none
      → Unique lines
      → Unique (line ∷ lines)

put_line-none :
    (j : ℕ) (rec : Line) (lines : List Line)
    → find_line j lines ≡ none
    → find_line j (put_line rec lines) ≡ none
unfolding find_line put_line
put_line-none j rec [] h = refl
put_line-none j rec (l ∷ lines) h = ground (arith, put_line-none j rec lines)

put_line-Unique : (rec : Line) (lines : List Line) → Unique lines → Unique (put_line rec lines)
unfolding put_line
put_line-Unique rec [] no_line = no_line
put_line-Unique rec (l ∷ lines) (another h u) = elim (Bool-cases (l.id == rec.id)) [
  | inl e ↦ rw e (another (subst (λ i. find_line i lines ≡ none) ((==_iff l.id rec.id).0 e) h) u)
  | inr e ↦ rw e (another (put_line-none l.id rec lines h) (put_line-Unique rec lines u))
]

-- A line of a contract is what its id leads to.
abbrev Found : ℕ → List Line → Line → Type 0
Found c lines l = (find_line l.id lines ≡ some l) × (l.contract_id ≡ c)

All-map :
    {P Q : Line → Type 0} {lines : List Line} → ((l : Line) → P l → Q l) → All P lines → All Q lines
All-map f none_left = none_left
All-map f (one_more p ps) = one_more (f _ p) (All-map f ps)

found_later :
    (l line : Line) (lines : List Line)
    → find_line line.id lines ≡ none
    → find_line l.id lines ≡ some l
    → find_line l.id (line ∷ lines) ≡ some l
unfolding find_line
found_later l line lines h k = elim (Bool-cases (line.id == l.id)) [
  | inl e ↦
      let gone = subst (λ i. find_line i lines ≡ none) ((==_iff line.id l.id).0 e) h in absurd cc
  | inr e ↦ rw e k
]

found_here : (line : Line) (lines : List Line) → find_line line.id (line ∷ lines) ≡ some line
unfolding find_line
found_here line lines = rw ((==_iff line.id line.id).1 refl) refl

contract_lines-Found :
    (c : ℕ) (lines : List Line) → Unique lines → All (Found c lines) (contract_lines c lines)
unfolding contract_lines
contract_lines-Found c [] no_line = none_left
contract_lines-Found c (line ∷ lines) (another h u) =
    let rest =
      All-map (λ l (k : Found c lines l). (found_later l line lines h k.0, k.1))
        (contract_lines-Found c lines u) in
    elim (Bool-cases (line.contract_id == c)) [
      | inl e ↦ rw e (one_more (found_here line lines, (==_iff line.contract_id c).0 e) rest)
      | inr e ↦ rw e rest
    ]

contract_lines-put_line :
    (c : ℕ) (rec old : Line) (lines : List Line)
    → find_line rec.id lines ≡ some old
    → (old.contract_id == c) ≡ false
    → (rec.contract_id == c) ≡ false
    → contract_lines c (put_line rec lines) ≡ contract_lines c lines
unfolding contract_lines put_line find_line
contract_lines-put_line c rec old [] h a b = refl
contract_lines-put_line c rec old (l ∷ lines) h a b = elim (Bool-cases (l.id == rec.id)) [
  | inl e ↦
      let same : l ≡ old = some_inj (rw e at h) in
      let other : (l.contract_id == c) ≡ false =
        subst (λ x. (x.contract_id == c) ≡ false) (sym same) a in
      rw (e, b, other) refl
  | inr e ↦
      let deeper : find_line rec.id lines ≡ some old = rw e at h in
      rw (e, contract_lines-put_line c rec old lines deeper a b) refl
]

-- Two lines that are one record, but for what an invoice changes.
abbrev SameOwner : Line → Line → Type 0
SameOwner rec' rec = (rec'.id ≡ rec.id) × (rec'.contract_id ≡ rec.contract_id)

invoiced-SameOwner :
    (cal : Calendar) (rec rec' : Line) (last : Option ℕ)
    → invoiced_until cal rec last ≡ ok rec'
    → SameOwner rec' rec
unfolding invoiced_until
invoiced-SameOwner cal rec rec' none h = absurd cc
invoiced-SameOwner cal rec rec' (some last) h =
    let (valid, written) = check_ran (validate _ _ _ _) _ h in
    let same = ok_inj written in
    (ap (λ (r : Line). r.id) (sym same), ap (λ (r : Line). r.contract_id) (sym same))

update-SameOwner :
    (cal : Calendar) (rec rec' : Line)
    → update_recurring_next_date cal rec ≡ ok rec'
    → SameOwner rec' rec
unfolding update_recurring_next_date
update-SameOwner cal rec rec' h = invoiced-SameOwner cal rec rec' (next_period_date_end cal rec) h

-- What the id of the line leads to belongs to the contract.
abbrev pub Owned : ℕ → List Line → Line → Type 0
Owned c lines l = (rec : Line) → find_line l.id lines ≡ some rec → rec.contract_id ≡ c

put_line-Owned :
    (c : ℕ) (rec old : Line) (lines : List Line) (l : Line)
    → find_line rec.id lines ≡ some old
    → rec.contract_id ≡ c
    → Owned c lines l
    → Owned c (put_line rec lines) l
put_line-Owned c rec old lines l h own k r found =
    let there = sym (find_line-put_line rec old lines l.id h) ∙ found in
    elim (Bool-cases (rec.id == l.id)) [
      | inl e ↦ subst (λ (x : Line). x.contract_id ≡ c) (some_inj (rw e at there)) own
      | inr e ↦ k r (rw e at there)
    ]

-- What the writes of an invoice leave as it is.
pub record Kept (c : ℕ) (before after : List Line) : Type 0 where
  pub unique : Unique before → Unique after
  pub others : (d : ℕ) → (c == d) ≡ false → contract_lines d after ≡ contract_lines d before

pub update_each-Kept :
    (env : Env) (journal : ℕ → Bool) (c : ℕ) (ls : List Line) (st st' : Store)
    → All (Owned c st.lines) ls
    → update_each env journal ls st ≡ ok st'
    → Kept c st.lines st'.lines
unfolding update_each
update_each-Kept env journal c [] st st' none_left h =
    subst (λ (x : Store). Kept c st.lines x.lines) (ok_inj h)
      (record { unique = λ u. u; others = λ d n. refl })
update_each-Kept env journal c (line ∷ ls) st st' (one_more own owned) h =
    let first = ran (browse st line.id) _ h in
    let second = ran (update_recurring_next_date env.calendar first.value) _ first.rest in
    let rec = first.value in
    let rec' = second.value in
    let found = or_missing-found (find_line line.id st.lines) rec first.called in
    let same = update-SameOwner env.calendar rec rec' second.called in
    let there : find_line rec'.id st.lines ≡ some rec =
      subst (λ i. find_line i st.lines ≡ some rec)
        (sym (same.0 ∙ find_line-id line.id st.lines rec found)) found in
    let owner = own rec found in
    let rest =
      update_each-Kept env journal c ls (record st { lines = put_line rec' st.lines }) st'
        (All-map (λ l k. put_line-Owned c rec' rec st.lines l there (same.1 ∙ owner) k) owned)
        second.rest in
    record {
      unique = λ u. rest.unique (put_line-Unique rec' st.lines u);
      others = λ d n.
          rest.others d n
          ∙ contract_lines-put_line d rec' rec st.lines there
              (subst (λ x. (x == d) ≡ false) (sym owner) n)
              (subst (λ x. (x == d) ≡ false) (sym (same.1 ∙ owner)) n);
    }

pub contract_lines-Owned :
    (c : ℕ) (lines : List Line) → Unique lines → All (Owned c lines) (contract_lines c lines)
contract_lines-Owned c lines u =
    All-map
      (λ l (f : Found c lines l) rec (found : find_line l.id lines ≡ some rec).
        subst (λ (x : Line). x.contract_id ≡ c) (some_inj (sym f.0 ∙ found)) f.1)
      (contract_lines-Found c lines u)
