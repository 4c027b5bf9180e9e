-- ===== src/Contract/Lifecycle/Daily/Extended.antt =====
-- What the daily renewal writes where the companies extend their lines.
use projectname.Prelude.{
  ℕ, ◌≡◌, refl, sym, ap, ◌∙◌, subst, Bool, false, true, none, some, List, [], ◌∷◌, ◌++◌, map, ok,
  ran, check_ran, ok_inj, arith, ==_iff, inl, inr, Bool-cases, Option-cases, if◌then◌else◌,
  or_missing-found,
}
use mathlib.Core.List.{append_assoc}
use projectname.Contract.Calendar.{days}
use projectname.Contract.Line.{Line}
use projectname.Contract.Period.{get_first_date_end}
use projectname.Contract.Checks.{Field, has_field}
use projectname.Contract.State.{compute_termination_notice_date}
use projectname.Contract.Store.{
  Contract, Store, Env, find_line, put_line, find_contract, or_missing, recompute, write_line,
}
use projectname.Contract.Store.Laws.{find_line-append}
use projectname.Contract.Recurring.Others.{Unique, no_line, another}
use projectname.Contract.Recurring.Owned.{All, none_left, one_more}
use projectname.Contract.Lifecycle.Renew.{
  day_after, get_renewal_new_date_end, renew_create_line, renew_extend_line, renew_one, renew,
}
use projectname.Contract.Lifecycle.Daily.{
  contract_line_to_renew_domain, lines_to_renew, cron_renew_contract_line,
}

-- A line that is renewed for its renewal period, and the date of the notice to end it.
abbrev pub extended : Env → Line → Line
extended env rec = elim rec.date_end [
  | none ↦ rec
  | some end ↦ compute_termination_notice_date env.calendar (record rec {
    date_end = some (
        get_first_date_end env.calendar (env.calendar.plus end (days 1)) rec.auto_renew_rule_type
          rec.auto_renew_interval);
  })
]

abbrev pub renewed : Env → List Contract → Line → Line
renewed env contracts rec =
    if contract_line_to_renew_domain env.today contracts rec then extended env rec else rec

extended-id : (env : Env) (rec : Line) → (extended env rec).id ≡ rec.id
unfolding compute_termination_notice_date
extended-id env rec = ground arith

-- No company makes a new line when it renews one.
abbrev pub ExtendsLines : List Contract → Type 0
ExtendsLines contracts =
    (i : ℕ) (c : Contract)
    → find_contract i contracts ≡ some c
    → c.create_new_line_at_contract_line_renew ≡ false

record Extends (env : Env) (rec : Line) (st st' : Store) : Type 0 where
  lines : st'.lines ≡ put_line (extended env rec) st.lines
  contracts : st'.contracts ≡ st.contracts

extend_line-Extends :
    (env : Env) (d i new : ℕ) (rec : Line) (st st' : Store)
    → find_line i st.lines ≡ some rec
    → renew_extend_line env d i st ≡ ok (new, st')
    → st' ≡ record st {
      lines =
          put_line
            (compute_termination_notice_date env.calendar (record rec { date_end = some d }))
            st.lines;
    }
unfolding renew_extend_line write_line recompute has_field
extend_line-Extends env d i new rec st st' found h =
    let longer = record rec { date_end = some d } in
    let w = ran (write_line env (Field.date_end ∷ []) longer st) _ (rw found at h) in
    let written = (check_ran _ _ w.called).1 in
    ap (λ r. r.1) (sym (ok_inj w.rest)) ∙ sym (ok_inj written)

otherwise {ℓ} :
    {A : Type ℓ} {y z : A} (b : Bool) (x : A) → b ≡ false → (if b then x else y) ≡ z → y ≡ z
otherwise true x e h = absurd cc
otherwise false x e h = h

extended-date_end :
    (env : Env) (rec : Line) (d s : ℕ)
    → day_after env rec.date_end ≡ ok s
    → get_renewal_new_date_end env rec ≡ ok d
    → compute_termination_notice_date env.calendar (record rec { date_end = some d })
      ≡ extended env rec
unfolding get_renewal_new_date_end day_after
extended-date_end env rec d s h k = elim (Option-cases rec.date_end) [
  | inl open_end ↦ absurd (let gone = (rw open_end at h) in cc)
  | inr (end, e) ↦ let d_eq = ok_inj (rw e at k) in rw (e, ← d_eq) refl
]

renew_one-Extends :
    (env : Env) (i new : ℕ) (rec : Line) (st st' : Store)
    → ExtendsLines st.contracts
    → find_line i st.lines ≡ some rec
    → renew_one env i st ≡ ok (new, st')
    → Extends env rec st st'
unfolding renew_one get_renewal_new_date_end
renew_one-Extends env i new rec st st' keeps found h =
    let c = ran (or_missing (find_contract rec.contract_id st.contracts)) _ (rw found at h) in
    let extends = keeps rec.contract_id c.value (or_missing-found _ c.value c.called) in
    let e = ran (get_renewal_new_date_end env rec) _ c.rest in
    let s = ran (day_after env rec.date_end) _ e.rest in
    let n =
      ran
        (if c.value.create_new_line_at_contract_line_renew
          then renew_create_line env e.value i st
          else renew_extend_line env e.value i st)
        _ s.rest in
    let written =
      extend_line-Extends env e.value i n.value.0 rec st n.value.1 found
        (otherwise c.value.create_new_line_at_contract_line_renew _ extends n.called) in
    let last = ap (λ r. r.1) (sym (ok_inj n.rest)) in
    record {
      lines =
          ap (λ s. s.lines) (last)
          ∙ ap (λ s. s.lines) written
          ∙ ap (λ l. put_line l st.lines)
              (extended-date_end env rec e.value s.value s.called e.called);
      contracts = ap (λ s. s.contracts) last ∙ ap (λ s. s.contracts) written;
    }

find_line-middle :
    (done : List Line) (rec : Line) (rest : List Line)
    → find_line rec.id done ≡ none
    → find_line rec.id (done ++ (rec ∷ rest)) ≡ some rec
unfolding find_line
find_line-middle [] rec rest h = rw ((==_iff rec.id rec.id).1 refl) refl
find_line-middle (l ∷ done) rec rest h = ground (arith, find_line-middle done rec rest)

put_line-middle :
    (done : List Line) (rec new : Line) (rest : List Line)
    → find_line rec.id done ≡ none
    → new.id ≡ rec.id
    → put_line new (done ++ (rec ∷ rest)) ≡ done ++ (new ∷ rest)
unfolding find_line put_line
put_line-middle [] rec new rest h e = rw (e, (==_iff rec.id rec.id).1 refl) refl
put_line-middle (l ∷ done) rec new rest h e = ground (arith, put_line-middle done rec new rest, e)

-- No line of `rest` has the id of one of `done`.
abbrev Fresh : List Line → List Line → Type 0
Fresh done rest = All (λ l. find_line l.id done ≡ none) rest

Fresh-next :
    (done : List Line) (rec : Line) (rest : List Line)
    → Fresh done rest
    → find_line rec.id rest ≡ none
    → Fresh (done ++ (rec ∷ [])) rest
unfolding find_line
Fresh-next done rec [] none_left h = none_left
Fresh-next done rec (l ∷ rest) (one_more f fs) h =
    one_more (rw (find_line-append done rec l.id) (ground arith))
      (Fresh-next done rec rest fs (ground arith))

module _ (env : Env) (contracts : List Contract) (keeps : ExtendsLines contracts) where
  renew-Extends :
      (done rest : List Line) (st : Store) (new : List ℕ) (st' : Store)
      → st.contracts ≡ contracts
      → st.lines ≡ done ++ rest
      → Fresh done rest
      → Unique rest
      → renew env (lines_to_renew env.today contracts rest) st ≡ ok (new, st')
      → st'.lines ≡ done ++ map (renewed env contracts) rest
  unfolding renew lines_to_renew
  renew-Extends done [] st new st' c e none_left no_line h =
      ap (λ r. r.1.lines) (sym (ok_inj h)) ∙ e
  renew-Extends done (rec ∷ rest) st new st' c e (one_more f fs) (another u us) h =
      elim (Bool-cases (contract_line_to_renew_domain env.today contracts rec)) [
        | inl chosen ↦
            let longer = extended env rec in
            let ids = lines_to_renew env.today contracts rest in
            let a = ran (renew_one env rec.id st) _ (rw chosen at h) in
            let b = ran (renew env ids a.value.1) _ a.rest in
            let found = ap (find_line rec.id) e ∙ find_line-middle done rec rest f in
            let one =
              renew_one-Extends env rec.id a.value.0 rec st a.value.1
                (subst ExtendsLines (sym c) keeps) found a.called in
            let lines : a.value.1.lines ≡ (done ++ (longer ∷ [])) ++ rest =
              one.lines
              ∙ ap (put_line longer) e
              ∙ put_line-middle done rec longer rest f (extended-id env rec)
              ∙ sym (append_assoc done (longer ∷ []) rest) in
            let fresh =
              Fresh-next done longer rest fs
                (subst (λ i. find_line i rest ≡ none) (sym (extended-id env rec)) u) in
            let others =
              renew-Extends (done ++ (longer ∷ [])) rest a.value.1 b.value.0 b.value.1
                (one.contracts ∙ c) lines fresh us b.called in
            rw chosen (
              ap (λ r. r.1.lines) (sym (ok_inj b.rest))
              ∙ others
              ∙ append_assoc done (longer ∷ []) (map (renewed env contracts) rest))
        | inr left ↦
            let lines : st.lines ≡ (done ++ (rec ∷ [])) ++ rest =
              e ∙ sym (append_assoc done (rec ∷ []) rest) in
            let others =
              renew-Extends (done ++ (rec ∷ [])) rest st new st' c lines
                (Fresh-next done rec rest fs u) us (rw left at h) in
            rw left (others ∙ append_assoc done (rec ∷ []) (map (renewed env contracts) rest))
      ]

Unique-Fresh : (lines : List Line) → Fresh [] lines
unfolding find_line
Unique-Fresh [] = none_left
Unique-Fresh (l ∷ lines) = one_more refl (Unique-Fresh lines)

-- If no two lines have one id and no company makes new lines, then a run of the daily renewal that
-- raises nothing extends each line that is due for it, and leaves each other line as it is.
pub cron_renew_contract_line-extends :
    (env : Env) (st st' : Store)
    → ExtendsLines st.contracts
    → Unique st.lines
    → cron_renew_contract_line env st ≡ ok st'
    → st'.lines ≡ map (renewed env st.contracts) st.lines
unfolding cron_renew_contract_line
cron_renew_contract_line-extends env st st' keeps u h =
    let r = ran (renew env (lines_to_renew env.today st.contracts st.lines) st) _ h in
    ap (λ s. s.lines) (sym (ok_inj r.rest))
    ∙ renew-Extends env st.contracts keeps [] st.lines st r.value.0 r.value.1 refl refl
        (Unique-Fresh st.lines) u r.called
