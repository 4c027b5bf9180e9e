-- ===== src/Reports/Grouping.antt =====
-- The grouping of invoices by company, partner and currency.
use mathlib.Core.List.{append_assoc}
use projectname.Prelude.{
  ok_inj, ℕ, ◌≡◌, refl, sym, Bool, true, false, ◌&&◌, not, List, [], ◌∷◌, ◌++◌, arith, ok, ran,
  if◌then◌else◌, inl, inr, Bool-cases, ◌==◌,
}
use projectname.Reports.Line.{Report}
use projectname.Reports.Invoicing.{
  Books, LineVals, InvoiceVals, Group, start_group, add_to_group, close_group, same_key, group_from,
  group_by_keys, invoice_vals_list, invoices_to_create, none_refused,
}

-- The lines of the invoices that have the key of `k`, in order.
abbrev pub lines_of : InvoiceVals → List InvoiceVals → List LineVals
lines_of k [] = []
lines_of k (v ∷ vs) = (if same_key k v then v.invoice_line_ids else []) ++ lines_of k vs

-- No invoice has the key of the one before it.
abbrev pub apart_from : InvoiceVals → List InvoiceVals → Bool
apart_from v [] = true
apart_from v (w ∷ ws) = not (same_key v w) && apart_from w ws

abbrev pub apart : List InvoiceVals → Bool
apart [] = true
apart (v ∷ vs) = apart_from v vs

==_trans : (k a b : ℕ) → (a == b) ≡ true → (k == a) ≡ (k == b)
==_trans k a b h = ground arith

same_key_trans : (k v w : InvoiceVals) → same_key v w ≡ true → same_key k v ≡ same_key k w
unfolding same_key
same_key_trans k v w h = ground arith

joined :
    (k : InvoiceVals) (g : Group) (v : InvoiceVals) (rest : List LineVals)
    → same_key g.ref_invoice_vals v ≡ true
    → ((if same_key k g.ref_invoice_vals
          then g.ref_invoice_vals.invoice_line_ids ++ v.invoice_line_ids
          else [])
        ++ rest)
      ≡ (if same_key k g.ref_invoice_vals then g.ref_invoice_vals.invoice_line_ids else [])
        ++ ((if same_key k v then v.invoice_line_ids else []) ++ rest)
joined k g v rest e =
    rw (sym (same_key_trans k g.ref_invoice_vals v e))
      (elim (Bool-cases (same_key k g.ref_invoice_vals)) [
        | inl h ↦ rw h (append_assoc g.ref_invoice_vals.invoice_line_ids v.invoice_line_ids rest)
        | inr h ↦ rw h refl
      ])

group_from-lines_of :
    (k : InvoiceVals) (g : Group) (vs : List InvoiceVals)
    → lines_of k (group_from g vs)
      ≡ (if same_key k g.ref_invoice_vals then g.ref_invoice_vals.invoice_line_ids else [])
        ++ lines_of k vs
unfolding group_from close_group add_to_group start_group same_key
group_from-lines_of k g [] = refl
group_from-lines_of k g (v ∷ vs) = elim (Bool-cases (same_key g.ref_invoice_vals v)) [
  | inl e ↦ rw (e, group_from-lines_of k (add_to_group g v) vs) (joined k g v (lines_of k vs) e)
  | inr e ↦ rw (e, group_from-lines_of k (start_group v) vs) refl
]

group_from-apart_from :
    (u : InvoiceVals) (g : Group) (vs : List InvoiceVals)
    → same_key u g.ref_invoice_vals ≡ false
    → apart_from u (group_from g vs) ≡ true
unfolding group_from close_group add_to_group start_group same_key
group_from-apart_from u g [] h = rw h refl
group_from-apart_from u g (v ∷ vs) h = elim (Bool-cases (same_key g.ref_invoice_vals v)) [
  | inl e ↦ rw e (group_from-apart_from u (add_to_group g v) vs h)
  | inr e ↦ rw (e, h) (group_from-apart_from (close_group g) (start_group v) vs e)
]

group_from-apart : (g : Group) (vs : List InvoiceVals) → apart (group_from g vs) ≡ true
unfolding group_from close_group add_to_group start_group same_key
group_from-apart g [] = refl
group_from-apart g (v ∷ vs) = elim (Bool-cases (same_key g.ref_invoice_vals v)) [
  | inl e ↦ rw e (group_from-apart (add_to_group g v) vs)
  | inr e ↦ rw e (group_from-apart_from (close_group g) (start_group v) vs e)
]

group_by_keys-lines_of :
    (k : InvoiceVals) (vs : List InvoiceVals) → lines_of k (group_by_keys vs) ≡ lines_of k vs
unfolding group_by_keys start_group
group_by_keys-lines_of k [] = refl
group_by_keys-lines_of k (v ∷ vs) = group_from-lines_of k (start_group v) vs

group_by_keys-apart : (vs : List InvoiceVals) → apart (group_by_keys vs) ≡ true
unfolding group_by_keys
group_by_keys-apart [] = refl
group_by_keys-apart (v ∷ vs) = group_from-apart (start_group v) vs

-- Where the reports can be invoiced one by one, they can be invoiced grouped: the invoices hold, for
-- each company, partner and currency, the same lines in the same order, and no invoice has the
-- company, the partner and the currency of the invoice before it.
pub invoices_to_create-groups :
    (b : Books) (reports : List Report) (made : List InvoiceVals)
    → invoices_to_create b true reports ≡ ok made
    → (vals : List InvoiceVals) × (invoices_to_create b false reports ≡ ok vals)
      × ((k : InvoiceVals) → lines_of k vals ≡ lines_of k made)
      × (apart vals ≡ true)
unfolding invoices_to_create
invoices_to_create-groups b reports made h =
    let first = ran (invoice_vals_list b reports) _ h in
    let second = ran (none_refused first.value) _ first.rest in
    let same : second.value ≡ made = ok_inj second.rest in
    (
      group_by_keys made,
      rw (first.called, second.called, same) refl,
      (λ k. group_by_keys-lines_of k made),
      group_by_keys-apart made,
    )
