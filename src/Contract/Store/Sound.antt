-- ===== src/Contract/Store/Sound.antt =====
-- The invariant of the store, and how a write may change the links of a line.
use projectname.Prelude.{
  ℕ, ◌≡◌, refl, sym, ◌∙◌, ap, subst, true, Option, none, some, List, arith, ◌⊎◌, inl, inr,
  Option-cases, ◌≤◌,
}
use projectname.Contract.Line.{Line}
use projectname.Contract.Checks.{Field, has_field}
use projectname.Contract.Store.{Store, find_line, put_line, linked}
use projectname.Contract.Store.Laws.{find_line-id, SameLinks, Checked}
use projectname.Contract.Store.Links.{
  EndsBefore, LinkOf, LinkAt, AllLinked, StartKept, AllLinked-put_line, LinkAt-checked, link_kept,
  found_self,
}

-- Ids from `next_id` on are free. A line that names a successor has an end date, the successor is
-- there, names the line as its predecessor, and starts after that end.
pub record IsSound (st : Store) : Type 0 where
  pub fresh : (i : ℕ) → st.next_id ≤ i → find_line i st.lines ≡ none
  pub all_linked : AllLinked st.lines

-- How a write may change what links the line `old` to others.
pub data Change (w : List Field) (lines : List Line) (rec old : Line) : Type 0 where
  same : SameLinks rec old → Change w lines rec old
  end_written :
      rec.predecessor_contract_line_id ≡ old.predecessor_contract_line_id
      → rec.successor_contract_line_id ≡ old.successor_contract_line_id
      → has_field Field.date_end w ≡ true
      → (rec.date_start ≡ old.date_start) ⊎ (has_field Field.date_start w ≡ true)
      → Change w lines rec old
  unlinked :
      rec.predecessor_contract_line_id ≡ old.predecessor_contract_line_id
      → rec.date_start ≡ old.date_start
      → rec.successor_contract_line_id ≡ none
      → Change w lines rec old
  linked_to :
      rec.predecessor_contract_line_id ≡ old.predecessor_contract_line_id
      → rec.date_start ≡ old.date_start
      → has_field Field.successor_contract_line_id w ≡ true
      → (s : ℕ) (t : Line) → rec.successor_contract_line_id ≡ some s
      → find_line s lines ≡ some t
      → t.predecessor_contract_line_id ≡ some rec.id
      → Change w lines rec old

-- The stored computed field is none of these.
pub Change-SameLinks :
    {w : List Field} {lines : List Line} {rec old : Line} (rec' : Line)
    → SameLinks rec' rec
    → Change w lines rec old
    → Change w lines rec' old
Change-SameLinks rec' e (same f) = same (record {
  id = e.id ∙ f.id;
  predecessor = e.predecessor ∙ f.predecessor;
  successor = e.successor ∙ f.successor;
  date_start = e.date_start ∙ f.date_start;
  date_end = e.date_end ∙ f.date_end;
})
Change-SameLinks rec' e (end_written p s d (inl k)) =
    end_written (e.predecessor ∙ p) (e.successor ∙ s) d (inl (e.date_start ∙ k))
Change-SameLinks rec' e (end_written p s d (inr k)) =
    end_written (e.predecessor ∙ p) (e.successor ∙ s) d (inr k)
Change-SameLinks rec' e (unlinked p d s) =
    unlinked (e.predecessor ∙ p) (e.date_start ∙ d) (e.successor ∙ s)
Change-SameLinks rec' e (linked_to p d w s t hs ht back) =
    linked_to (e.predecessor ∙ p) (e.date_start ∙ d) w s t (e.successor ∙ hs) ht
      (back ∙ ap some (sym e.id))

LinkOf-same :
    (a b : Line) (o : Option Line) → a.id ≡ b.id → a.date_end ≡ b.date_end → LinkOf a o → LinkOf b o
LinkOf-same a b none hi he h = h
LinkOf-same a b (some t) hi he h = (h.0 ∙ ap some hi, subst (λ d. EndsBefore d t.date_start) he h.1)

LinkAt-same :
    (lines : List Line) (a b : Line) (s : Option ℕ)
    → a.id ≡ b.id
    → a.date_end ≡ b.date_end
    → LinkAt lines a s
    → LinkAt lines b s
LinkAt-same lines a b none hi he h = tt
LinkAt-same lines a b (some s) hi he h = LinkOf-same a b (find_line s lines) hi he h

module _ (w : List Field) (lines : List Line) (rec old : Line)
    (found : find_line rec.id lines ≡ some old) (all : AllLinked lines)
    (checked : Checked w rec
      (linked (put_line rec lines) rec.predecessor_contract_line_id)
      (linked (put_line rec lines) rec.successor_contract_line_id)) where
  start_kept : Change w lines rec old → StartKept lines rec old found
  start_kept (same e) = inl e.date_start
  start_kept (end_written p s d (inl k)) = inl k
  start_kept (end_written p s d (inr k)) = inr (checked.with_predecessor k)
  start_kept (unlinked p d s) = inl d
  start_kept (linked_to p d f s t hs ht back) = inl d

  pred_kept :
      Change w lines rec old → rec.predecessor_contract_line_id ≡ old.predecessor_contract_line_id
  pred_kept (same e) = e.predecessor
  pred_kept (end_written p s d k) = p
  pred_kept (unlinked p d s) = p
  pred_kept (linked_to p d f s t hs ht back) = p

  -- The successor that the line had, by the invariant.
  old_target :
      (s : ℕ)
      → old.successor_contract_line_id ≡ some s
      → (t : Line) × (find_line s lines ≡ some t) × (t.predecessor_contract_line_id ≡ some rec.id)
  old_target s hs = elim (Option-cases (find_line s lines)) [
    | inl missing ↦ absurd (subst (λ o. LinkOf old o) missing link)
    | inr (t, ht) ↦ (t, ht, (subst (λ o. LinkOf old o) ht link).0 ∙ ap some (sym (find_line-id')))
  ]
    where
      link : LinkOf old (find_line s lines)
      link = subst (λ o. LinkAt lines old o) hs (all rec.id old found)

      find_line-id' : rec.id ≡ old.id
      find_line-id' = sym (find_line-id rec.id lines old found)

  end_link :
      (o : Option ℕ)
      → rec.successor_contract_line_id ≡ o
      → Change w lines rec old
      → old.successor_contract_line_id ≡ o
      → has_field Field.date_end w ≡ true
      → LinkAt (put_line rec lines) rec o
  end_link none hr c ho d = tt
  end_link (some s) hr c ho d =
      let (t, ht, back) = old_target s ho in
      let (allowed, overlap) = checked.with_successor (ground arith) in
      subst (λ o. LinkAt (put_line rec lines) rec o) hr
        (LinkAt-checked lines rec old found s t (pred_kept c) ht back hr allowed overlap)

  own_link : Change w lines rec old → LinkAt (put_line rec lines) rec rec.successor_contract_line_id
  own_link (same e) =
      link_kept lines rec old found rec rec.successor_contract_line_id e.predecessor
        (inl e.date_start) (found_self lines rec old found)
        (subst (λ o. LinkAt lines rec o) (sym e.successor)
          (LinkAt-same lines old rec old.successor_contract_line_id (sym e.id) (sym e.date_end)
            (all rec.id old found)))
  own_link (end_written p s d k) =
      end_link rec.successor_contract_line_id refl (end_written p s d k) (sym s) d
  own_link (unlinked p d s) = subst (λ o. LinkAt (put_line rec lines) rec o) (sym s) tt
  own_link (linked_to p d f s t hs ht back) =
      let (allowed, overlap) = checked.with_successor (ground arith) in
      LinkAt-checked lines rec old found s t p ht back hs allowed overlap

  pub AllLinked-Change : Change w lines rec old → AllLinked (put_line rec lines)
  AllLinked-Change c =
      AllLinked-put_line lines rec old found (pred_kept c) (start_kept c) (own_link c) all
