-- ===== src/Settlements/Single.antt =====
-- In how many settlements that are not canceled a line of an agent is.
use projectname.Prelude.{
  ℕ, ◌≤◌, ◌≡◌, refl, sym, ap, ◌∙◌, Bool, true, false, not, ◌&&◌, Option, none, some, List, [], ◌∷◌,
  arith, and_parts,
}
use projectname.Settlements.Database.{
  Settlement, SettlementState, invoiced, except_invoice, find_settlement, is_cancel, not_cancel,
}
use projectname.Settlements.States.{Move, Books, is_one_of, write_state, put_state}
use projectname.Settlements.Numbered.{settlement_count, Numbered}
use projectname.Settlements.Written.{
  restated, find-write_state, write_state-UniqueIds, active_count-le,
}

-- The settlement has been invoiced.
abbrev pub is_billed : SettlementState → Bool
is_billed invoiced = true
is_billed except_invoice = true
is_billed _ = false

abbrev pub billed : Option Settlement → Bool
billed none = false
billed (some s) = is_billed s.state

abbrev pub billed_by : List Settlement → Option ℕ → Bool
billed_by ss none = true
billed_by ss (some i) = billed (find_settlement i ss)

abbrev pub all_billed : List Settlement → List Move → Bool
all_billed ss [] = true
all_billed ss (m ∷ ms) = billed_by ss m.settlement_id && all_billed ss ms

-- Each line is in one settlement at most that is not canceled, and the settlements of invoices have
-- been invoiced.
pub record Single (b : Books) : Type 0 where
  pub numbered : Numbered b.db
  pub single : (i : ℕ) → settlement_count b.db i ≤ 1
  pub invoices : all_billed b.db.settlements b.moves ≡ true

pub all_billed-change :
    (ss ss' : List Settlement) (ms : List Move)
    → ((i : ℕ) → billed (find_settlement i ss) ≡ true → billed (find_settlement i ss') ≡ true)
    → all_billed ss ms ≡ true
    → all_billed ss' ms ≡ true
all_billed-change ss ss' [] h k = refl
all_billed-change ss ss' (m ∷ ms) h k =
    let (a, b) = and_parts (billed_by ss m.settlement_id) (all_billed ss ms) k in
    rw (one m.settlement_id a, all_billed-change ss ss' ms h b) refl
  where
    one : (o : Option ℕ) → billed_by ss o ≡ true → billed_by ss' o ≡ true
    one none e = refl
    one (some i) e = h i e

-- A new state that no invoiced settlement loses by, and that revives no canceled one.
abbrev pub Allows : SettlementState → List ℕ → List Settlement → Type 0
Allows state ids ss =
    (i : ℕ) (s : Settlement)
    → is_one_of i ids ≡ true
    → find_settlement i ss ≡ some s
    → (not (is_cancel state) ≡ true → not (is_cancel s.state) ≡ true)
      × (is_billed s.state ≡ true → is_billed state ≡ true)

restated-not_cancel :
    (state : SettlementState) (b : Bool) (o : Option Settlement)
    → ((s : Settlement)
        → b ≡ true
        → o ≡ some s
        → not (is_cancel state) ≡ true
        → not (is_cancel s.state) ≡ true)
    → not_cancel (restated state b o) ≡ true
    → not_cancel o ≡ true
restated-not_cancel state b none h k = refl
restated-not_cancel state true (some s) h k = h s refl refl k
restated-not_cancel state false (some s) h k = k

restated-billed :
    (state : SettlementState) (b : Bool) (o : Option Settlement)
    → ((s : Settlement) → b ≡ true → o ≡ some s → is_billed s.state ≡ true → is_billed state ≡ true)
    → billed o ≡ true
    → billed (restated state b o) ≡ true
restated-billed state b none h k = k
restated-billed state true (some s) h k = h s refl refl k
restated-billed state false (some s) h k = k

restated-none :
    (state : SettlementState) (b : Bool) (o : Option Settlement)
    → o ≡ none
    → restated state b o ≡ none
restated-none state b none h = refl
restated-none state b (some s) h = cc

pub put_state-Single :
    (state : SettlementState) (ids : List ℕ) (b : Books)
    → Allows state ids b.db.settlements
    → Single b
    → Single (put_state state ids b)
put_state-Single state ids b allows v =
    let ss = b.db.settlements in
    record {
      numbered = record {
        unique = write_state-UniqueIds state ids ss v.numbered.unique;
        fresh = λ i le.
            find-write_state state ids i ss
            ∙ restated-none state (is_one_of i ids) _ (v.numbered.fresh i le);
      };
      single = λ i.
          let le = active_count-le i ss (write_state state ids ss) b.db.settlement_lines (λ j k.
            restated-not_cancel state (is_one_of j ids) (find_settlement j ss)
              (λ s m f. (allows j s m f).0)
              (sym (ap not_cancel (find-write_state state ids j ss)) ∙ k)) in
          omega (arith, le, v.single i);
      invoices =
          all_billed-change ss (write_state state ids ss) b.moves
            (λ j k.
              ap billed (find-write_state state ids j ss)
              ∙ restated-billed state (is_one_of j ids) (find_settlement j ss)
                  (λ s m f. (allows j s m f).1) k)
            v.invoices;
    }
