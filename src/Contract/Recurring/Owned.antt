-- ===== src/Contract/Recurring/Owned.antt =====
-- The lines chosen for the invoice of a contract, and their writes.
use projectname.Prelude.{
  ℕ, Bool, true, false, Option, none, some, List, [], ◌∷◌, ◌++◌, if◌then◌else◌, inl, inr,
  Bool-cases,
}
use projectname.Contract.Line.{Line}
use projectname.Contract.Invoicing.{
  Scan, Branch, section, previous_note, next_note, other_note, invoiced, ignored, branch, contains,
  union, union_option, add_invoiced, can_be_invoiced, scan_branch, scan_line, scan_lines, start,
  get_lines_to_invoice,
}

pub data All (P : Line → Type 0) : List Line → Type 0 where
  none_left : All P []
  one_more : {line : Line} {lines : List Line} → P line → All P lines → All P (line ∷ lines)

module _ (P : Line → Type 0) where
  All-append :
      (lines : List Line) (line : Line) → All P lines → P line → All P (lines ++ (line ∷ []))
  All-append [] line none_left p = one_more p none_left
  All-append (l ∷ ls) line (one_more q qs) p = one_more q (All-append ls line qs p)

  All-if : (b : Bool) (xs ys : List Line) → All P xs → All P ys → All P (if b then xs else ys)
  All-if true xs ys h k = h
  All-if false xs ys h k = k

  All-union : (lines : List Line) (line : Line) → All P lines → P line → All P (union lines line)
  unfolding union
  All-union lines line h p =
      All-if (contains line.id lines) lines (lines ++ (line ∷ [])) h (All-append lines line h p)

  abbrev InOption : Option Line → Type 0
  InOption none = Unit
  InOption (some line) = P line

  All-union_option :
      (lines : List Line) (o : Option Line)
      → All P lines
      → InOption o
      → All P (union_option lines o)
  All-union_option lines none h p = h
  All-union_option lines (some line) h p = All-union lines line h p

  record AllScan (s : Scan) : Type 0 where
    lines : All P s.lines2invoice
    waiting_section : InOption s.current_section
    waiting_note : InOption s.current_note

  add_invoiced-AllScan :
      (line : Line) (s : Scan) → P line → AllScan s → AllScan (add_invoiced line s)
  unfolding add_invoiced
  add_invoiced-AllScan line s p h = record {
    lines =
        All-union _ line
          (All-union_option _ s.current_note
            (All-union_option s.lines2invoice s.current_section h.lines h.waiting_section)
            h.waiting_note)
          p;
    waiting_section = tt;
    waiting_note = tt;
  }

  scan_branch-AllScan :
      (d : ℕ) (b : Branch) (line : Line) (s : Scan)
      → P line
      → AllScan s
      → AllScan (scan_branch d b line s)
  scan_branch-AllScan d section line s p h = record {
    lines = h.lines;
    waiting_section = p;
    waiting_note = h.waiting_note;
  }
  scan_branch-AllScan d previous_note line s p h = record {
    lines = All-if _ _ _ (All-union s.lines2invoice line h.lines p) h.lines;
    waiting_section = h.waiting_section;
    waiting_note = tt;
  }
  scan_branch-AllScan d next_note line s p h = record {
    lines = h.lines;
    waiting_section = h.waiting_section;
    waiting_note = p;
  }
  scan_branch-AllScan d other_note line s p h = h
  scan_branch-AllScan d invoiced line s p h = elim (Bool-cases (can_be_invoiced d line)) [
    | inl c ↦ rw c (add_invoiced-AllScan line s p h)
    | inr c ↦ rw c h
  ]
  scan_branch-AllScan d ignored line s p h = h

  scan_lines-AllScan :
      (d : ℕ) (lines : List Line) (s : Scan)
      → All P lines
      → AllScan s
      → AllScan (scan_lines d lines s)
  unfolding scan_lines scan_line
  scan_lines-AllScan d [] s none_left h = h
  scan_lines-AllScan d (line ∷ lines) s (one_more p ps) h =
      let now = scan_branch-AllScan d (branch line) line s p h in
      scan_lines-AllScan d lines (scan_line d line s) ps (record {
        lines = now.lines;
        waiting_section = now.waiting_section;
        waiting_note = now.waiting_note;
      })

  pub get_lines_to_invoice-All :
      (d : ℕ) (lines : List Line) → All P lines → All P (get_lines_to_invoice d lines)
  unfolding get_lines_to_invoice
  get_lines_to_invoice-All d lines h =
      (scan_lines-AllScan d lines start h
        (record { lines = none_left; waiting_section = tt; waiting_note = tt })).lines
