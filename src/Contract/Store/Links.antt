-- ===== src/Contract/Store/Links.antt =====
-- The links between a line and its successor, under a write of a line.
use projectname.Prelude.{
  ℕ, ◌≡◌, refl, sym, ◌∙◌, ap, subst, false, Option, none, some, List, ok, ◌==◌, ==_iff, arith, ◌⊎◌,
  inl, inr, Bool-cases, Option-cases, ◌<◌,
}
use projectname.Contract.Line.{Line}
use projectname.Contract.Checks.{check_allowed, check_overlap_predecessor, check_overlap_successor}
use projectname.Contract.Store.{find_line, put_line, linked}
use projectname.Contract.Store.Laws.{find_line-id, find_line-put_line, some_eq}

abbrev pub EndsBefore : Option ℕ → ℕ → Type 0
EndsBefore none start = ⊥
EndsBefore (some end) start = end < start

-- The line that `rec` names as its successor names it as its predecessor, and starts after its end.
abbrev pub LinkOf : Line → Option Line → Type 0
LinkOf rec none = ⊥
LinkOf rec (some successor) =
    (successor.predecessor_contract_line_id ≡ some rec.id)
    × EndsBefore rec.date_end successor.date_start

abbrev pub LinkAt : List Line → Line → Option ℕ → Type 0
LinkAt lines rec none = Unit {0}
LinkAt lines rec (some s) = LinkOf rec (find_line s lines)

-- Every line of the list.
abbrev pub AllLinked : List Line → Type 0
AllLinked lines =
    (i : ℕ) (rec : Line)
    → find_line i lines ≡ some rec
    → LinkAt lines rec rec.successor_contract_line_id

module _ (lines : List Line) (rec old : Line) (found : find_line rec.id lines ≡ some old) where
  abbrev pub put : List Line
  put = put_line rec lines

  pub found_self : find_line rec.id put ≡ some rec
  found_self = find_line-put_line rec old lines rec.id found ∙ rw ((==_iff rec.id rec.id).1 refl)

  found_other : (j : ℕ) → (rec.id == j) ≡ false → find_line j put ≡ find_line j lines
  found_other j ne = find_line-put_line rec old lines j found ∙ rw ne

  -- Its start is that of the line replaced, or is checked against the predecessor's end.
  abbrev pub StartKept : Type 0
  StartKept =
      (rec.date_start ≡ old.date_start)
      ⊎ (check_overlap_predecessor rec (linked put rec.predecessor_contract_line_id) ≡ ok tt)

  starts_after :
      (p : Line)
      → check_overlap_predecessor rec (some p) ≡ ok tt
      → EndsBefore p.date_end rec.date_start
  unfolding check_overlap_predecessor
  starts_after p h = elim (Option-cases p.date_end) [
    | inl open_end ↦ ground arith
    | inr (e, end) ↦ ground arith
  ]

  start_kept :
      (r : Line)
      → rec.predecessor_contract_line_id ≡ some r.id
      → find_line r.id put ≡ some r
      → StartKept
      → EndsBefore r.date_end old.date_start
      → EndsBefore r.date_end rec.date_start
  start_kept r hp hr (inl same) h = rw same h
  start_kept r hp hr (inr checked) h =
      let reached : check_overlap_predecessor rec (linked put (some r.id)) ≡ ok tt =
        subst (λ o. check_overlap_predecessor rec (linked put o) ≡ ok tt) hp checked in
      starts_after r (subst (λ o. check_overlap_predecessor rec o ≡ ok tt) hr reached)

  -- A link of another line is kept.
  pub link_kept :
      (r : Line) (s : Option ℕ)
      → rec.predecessor_contract_line_id ≡ old.predecessor_contract_line_id
      → StartKept
      → find_line r.id put ≡ some r
      → LinkAt lines r s
      → LinkAt put r s
  link_kept r none hp hs hr h = tt
  link_kept r (some s) hp hs hr h = elim (Bool-cases (rec.id == s)) [
    | inl self ↦
        let e : rec.id ≡ s = (==_iff rec.id s).0 self in
        let h' : LinkOf r (some old) =
          subst (λ o. LinkOf r o) found (subst (λ k. LinkOf r (find_line k lines)) (sym e) h) in
        let hp' : rec.predecessor_contract_line_id ≡ some r.id = hp ∙ h'.0 in
        subst (λ k. LinkOf r (find_line k put)) e
          (subst (λ o. LinkOf r o) (sym found_self) (hp', start_kept r hp' hr hs h'.1))
    | inr other ↦ subst (λ o. LinkOf r o) (sym (found_other s other)) h
  ]

  -- After the write all lines are linked, if the link of the line written is.
  pub AllLinked-put_line :
      rec.predecessor_contract_line_id ≡ old.predecessor_contract_line_id
      → StartKept
      → LinkAt put rec rec.successor_contract_line_id
      → AllLinked lines
      → AllLinked put
  AllLinked-put_line hp hs own all j r hr = elim (Bool-cases (rec.id == j)) [
    | inl self ↦
        let e : rec.id ≡ j = (==_iff rec.id j).0 self in
        let same : rec ≡ r =
          some_eq _ _ (sym found_self ∙ subst (λ k. find_line k put ≡ some r) (sym e) hr) in
        subst (λ x. LinkAt put x x.successor_contract_line_id) same own
    | inr other ↦
        let hr' : find_line j lines ≡ some r = sym (found_other j other) ∙ hr in
        let found_r : find_line r.id put ≡ some r =
          subst (λ k. find_line k put ≡ some r) (sym (find_line-id j lines r hr')) hr in
        link_kept r r.successor_contract_line_id hp hs found_r (all j r hr')
  ]

  -- The successor of the line written, if it is what it was or has the line as its predecessor.
  target_kept :
      (s : ℕ) (t : Line)
      → rec.predecessor_contract_line_id ≡ old.predecessor_contract_line_id
      → find_line s lines ≡ some t
      → t.predecessor_contract_line_id ≡ some rec.id
      → (t' : Line) × (find_line s put ≡ some t') × (t'.predecessor_contract_line_id ≡ some rec.id)
  target_kept s t hp ht back = elim (Bool-cases (rec.id == s)) [
    | inl self ↦
        let e : rec.id ≡ s = (==_iff rec.id s).0 self in
        let same : old ≡ t =
          some_eq _ _ (sym found ∙ subst (λ k. find_line k lines ≡ some t) (sym e) ht) in
        (
          rec,
          subst (λ k. find_line k put ≡ some rec) e found_self,
          hp ∙ ap (λ (x : Line). x.predecessor_contract_line_id) same ∙ back,
        )
    | inr other ↦ (t, found_other s other ∙ ht, back)
  ]

  -- The constraints of a write of the end or of the successor leave no overlap.
  ends_before :
      (t : Line) (s : ℕ)
      → rec.successor_contract_line_id ≡ some s
      → check_allowed rec ≡ ok tt
      → check_overlap_successor rec (some t) ≡ ok tt
      → EndsBefore rec.date_end t.date_start
  unfolding check_allowed check_overlap_successor
  ends_before t s hs h k = elim (Option-cases rec.date_end) [
    | inl open_end ↦ ground arith
    | inr (e, end) ↦ ground arith
  ]

  pub LinkAt-checked :
      (s : ℕ) (t : Line)
      → rec.predecessor_contract_line_id ≡ old.predecessor_contract_line_id
      → find_line s lines ≡ some t
      → t.predecessor_contract_line_id ≡ some rec.id
      → rec.successor_contract_line_id ≡ some s
      → check_allowed rec ≡ ok tt
      → check_overlap_successor rec (linked put rec.successor_contract_line_id) ≡ ok tt
      → LinkAt put rec rec.successor_contract_line_id
  LinkAt-checked s t hp ht back hs allowed overlap =
      let (t', ht', back') = target_kept s t hp ht back in
      let k : check_overlap_successor rec (find_line s put) ≡ ok tt =
        subst (λ o. check_overlap_successor rec (linked put o) ≡ ok tt) hs overlap in
      let k' : check_overlap_successor rec (some t') ≡ ok tt =
        subst (λ o. check_overlap_successor rec o ≡ ok tt) ht' k in
      subst (λ o. LinkAt put rec o) (sym hs)
        (subst (λ o. LinkOf rec o) (sym ht') (back', ends_before t' s hs allowed k'))
