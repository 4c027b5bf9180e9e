-- ===== src/Contract/Invoicing/Selection.antt =====
-- Which lines of a contract `_get_lines_to_invoice` selects.
use projectname.Prelude.{
  ℕ, ◌≡◌, refl, ◌∙◌, Bool, true, false, ◌||◌, Option, none, some, List, [], ◌∷◌, ◌++◌, ◌==◌, ==_iff,
  if◌then◌else◌, Bool-cases, inl, inr, arith, ap, subst,
}
use mathlib.Core.Bool.{or-false, or-true}
use projectname.Contract.Line.{Line}
use projectname.Contract.Invoicing.{
  can_be_invoiced, contains, union, union_option, Scan, Branch, section, previous_note, next_note,
  other_note, invoiced, ignored, branch, contains_option, add_invoiced, scan_branch, scan_line,
  scan_lines, start, get_lines_to_invoice,
}
use projectname.Contract.Invoicing.Waiting.{
  past_line_section, past_line_note, Held, after_branch, in_the_end, used_branch, nothing_left,
  drop_two, other_union, contains-union, contains-union_option,
}

-- A line to invoice follows before the next section.
abbrev pub section_used : ℕ → List Line → Bool
section_used date_ref [] = false
section_used date_ref (line ∷ lines) =
    past_line_section (branch line) (can_be_invoiced date_ref line) (section_used date_ref lines)

-- A line to invoice follows before the next note for its previous or its next line.
abbrev pub note_used : ℕ → List Line → Bool
note_used date_ref [] = false
note_used date_ref (line ∷ lines) =
    past_line_note (branch line) (can_be_invoiced date_ref line) (note_used date_ref lines)

abbrev pub last_or : Option Line → List Line → Option Line
last_or o [] = o
last_or o (line ∷ lines) = last_or (some line) lines

abbrev selected_by : Branch → ℕ → List Line → Line → List Line → Bool
selected_by section date_ref before line after = section_used date_ref after
selected_by previous_note date_ref before line after =
    contains_option (last_or none before) (get_lines_to_invoice date_ref before)
selected_by next_note date_ref before line after = note_used date_ref after
selected_by invoiced date_ref before line after = can_be_invoiced date_ref line
selected_by _ date_ref before line after = false

-- A line between the lines `before` and `after` of its contract is selected.
abbrev pub selected : ℕ → List Line → Line → List Line → Bool
selected date_ref before line after = selected_by (branch line) date_ref before line after

module _ (date_ref i : ℕ) where
  waiting_added :
      (line : Line) (s : Scan) (f u n : Bool)
      → (line.id == i) ≡ false
      → Held i s f u n
      → contains i (add_invoiced line s).lines2invoice ≡ ((f || u) || n)
  unfolding add_invoiced
  waiting_added line s f u n h v =
      other_union i _ line h
      ∙ contains-union_option i (union_option s.lines2invoice s.current_section) s.current_note
      ∙ rw
          (
            contains-union_option i s.lines2invoice s.current_section,
            v.found,
            v.in_section,
            v.in_note,
          )
          refl

  Held-scan_branch :
      (b : Branch) (line : Line) (s : Scan) (f u n : Bool)
      → (line.id == i) ≡ false
      → Held i s f u n
      → let (f', u', n') = after_branch b (can_be_invoiced date_ref line) f u n in
        Held i (scan_branch date_ref b line s) f' u' n'
  unfolding add_invoiced
  Held-scan_branch section line s f u n h v = record {
    found = v.found;
    in_section = h;
    in_note = v.in_note;
  }
  Held-scan_branch previous_note line s f u n h v = record {
    found = found_if (contains_option s.previous s.lines2invoice);
    in_section = v.in_section;
    in_note = refl;
  }
    where
      found_if :
          (b : Bool) → contains i (if b then union s.lines2invoice line else s.lines2invoice) ≡ f
      found_if true = other_union i s.lines2invoice line h ∙ v.found
      found_if false = v.found
  Held-scan_branch next_note line s f u n h v = record {
    found = v.found;
    in_section = v.in_section;
    in_note = h;
  }
  Held-scan_branch other_note line s f u n h v = v
  Held-scan_branch invoiced line s f u n h v = elim (Bool-cases (can_be_invoiced date_ref line)) [
    | inl can ↦
        rw can
          (record { found = waiting_added line s f u n h v; in_section = refl; in_note = refl })
    | inr not_yet ↦ rw not_yet v
  ]
  Held-scan_branch ignored line s f u n h v = v

  Held-scan_line :
      (line : Line) (s : Scan) (f u n : Bool)
      → (line.id == i) ≡ false
      → Held i s f u n
      → let (f', u', n') = after_branch (branch line) (can_be_invoiced date_ref line) f u n in
        Held i (scan_line date_ref line s) f' u' n'
  unfolding scan_line
  Held-scan_line line s f u n h v =
      let w = Held-scan_branch (branch line) line s f u n h v in
      record { found = w.found; in_section = w.in_section; in_note = w.in_note }

  -- What is selected in the end of a line that is not among those left.
  abbrev used : List Line → Bool → Bool → Bool → Bool
  used lines f u n = in_the_end (section_used date_ref lines) (note_used date_ref lines) (f, u, n)

  contains-scan_lines :
      (lines : List Line) (s : Scan) (f u n : Bool)
      → contains i lines ≡ false
      → Held i s f u n
      → contains i (scan_lines date_ref lines s).lines2invoice ≡ used lines f u n
  unfolding scan_lines
  contains-scan_lines [] s f u n h v = v.found ∙ nothing_left f u n
  contains-scan_lines (line ∷ lines) s f u n h v =
      let (f', u', n') = after_branch (branch line) (can_be_invoiced date_ref line) f u n in
      contains-scan_lines lines (scan_line date_ref line s) f' u' n' (ground arith)
        (Held-scan_line line s f u n (ground arith) v)
      ∙ used_branch (branch line) (can_be_invoiced date_ref line) (section_used date_ref lines)
          (note_used date_ref lines) f u n

  scan-append :
      (before after : List Line) (s : Scan)
      → scan_lines date_ref (before ++ after) s
        ≡ scan_lines date_ref after (scan_lines date_ref before s)
  unfolding scan_lines
  scan-append [] after s = refl
  scan-append (line ∷ before) after s = scan-append before after (scan_line date_ref line s)

  scan-previous :
      (lines : List Line) (s : Scan)
      → (scan_lines date_ref lines s).previous ≡ last_or s.previous lines
  unfolding scan_lines scan_line
  scan-previous [] s = refl
  scan-previous (line ∷ lines) s = scan-previous lines (scan_line date_ref line s)

  -- A line that is not yet read is not held.
  unread_branch :
      (b : Branch) (can : Bool) → after_branch b can false false false ≡ (false, false, false)
  unread_branch section can = refl
  unread_branch previous_note can = refl
  unread_branch next_note can = refl
  unread_branch other_note can = refl
  unread_branch invoiced true = refl
  unread_branch invoiced false = refl
  unread_branch ignored can = refl

  unread :
      (lines : List Line) (s : Scan)
      → contains i lines ≡ false
      → Held i s false false false
      → Held i (scan_lines date_ref lines s) false false false
  unfolding scan_lines
  unread [] s h v = v
  unread (line ∷ lines) s h v = unread lines (scan_line date_ref line s) (ground arith) (
      subst (λ (f, u, n). Held i (scan_line date_ref line s) f u n)
        (unread_branch (branch line) (can_be_invoiced date_ref line))
        (Held-scan_line line s false false false (ground arith) v))

module _ (date_ref : ℕ) (line : Line) where
  self : (line.id == line.id) ≡ true
  self = (==_iff line.id line.id).1 refl

  self_union : (lines : List Line) → contains line.id (union lines line) ≡ true
  self_union lines =
      contains-union line.id lines line ∙ (rw self (or-true (contains line.id lines)))

  -- What the line itself does.
  own_branch : Branch → Scan → Bool × Bool × Bool
  own_branch section s = (false, true, false)
  own_branch previous_note s = (contains_option s.previous s.lines2invoice, false, false)
  own_branch next_note s = (false, false, true)
  own_branch other_note s = (false, false, false)
  own_branch invoiced s = (can_be_invoiced date_ref line, false, false)
  own_branch ignored s = (false, false, false)

  own-Held :
      (b : Branch) (s : Scan)
      → Held line.id s false false false
      → let (f, u, n) = own_branch b s in Held line.id (scan_branch date_ref b line s) f u n
  unfolding own_branch add_invoiced
  own-Held section s v = record { found = v.found; in_section = self; in_note = v.in_note }
  own-Held previous_note s v = record {
    found = found_if (contains_option s.previous s.lines2invoice);
    in_section = v.in_section;
    in_note = refl;
  }
    where
      found_if :
          (b : Bool)
          → contains line.id (if b then union s.lines2invoice line else s.lines2invoice) ≡ b
      found_if true = self_union s.lines2invoice
      found_if false = v.found
  own-Held next_note s v = record { found = v.found; in_section = v.in_section; in_note = self }
  own-Held other_note s v = v
  own-Held invoiced s v = elim (Bool-cases (can_be_invoiced date_ref line)) [
    | inl can ↦ rw can (record { found = self_union _; in_section = refl; in_note = refl })
    | inr not_yet ↦ rw not_yet v
  ]
  own-Held ignored s v = v

  own-selected :
      (b : Branch) (before after : List Line)
      → in_the_end
          (section_used date_ref after)
          (note_used date_ref after)
          (own_branch b (scan_lines date_ref before start))
        ≡ selected_by b date_ref before line after
  unfolding own_branch get_lines_to_invoice
  own-selected section before after = or-false (section_used date_ref after)
  own-selected previous_note before after =
      rw (scan-previous date_ref line.id before start)
        (drop_two (contains_option (last_or none before) _))
  own-selected next_note before after = refl
  own-selected other_note before after = refl
  own-selected invoiced before after = drop_two (can_be_invoiced date_ref line)
  own-selected ignored before after = refl

-- Of the lines of a contract, with no id twice, a line without a display type and a recurring note
-- are selected if they can be invoiced, a section if a line to invoice follows before the next
-- section, a note for its previous line if that line was selected when the note is read, a note for
-- its next line if a line to invoice follows before the next note of these two kinds, and no other
-- note.
pub contains-get_lines_to_invoice :
    (date_ref : ℕ) (before after : List Line) (line : Line)
    → contains line.id before ≡ false
    → contains line.id after ≡ false
    → contains line.id (get_lines_to_invoice date_ref (before ++ (line ∷ after)))
      ≡ selected date_ref before line after
unfolding get_lines_to_invoice scan_lines scan_line
contains-get_lines_to_invoice date_ref before after line hb ha =
    let s = scan_lines date_ref before start in
    let v = own-Held date_ref line (branch line) s (
      unread date_ref line.id before start hb
        (record { found = refl; in_section = refl; in_note = refl })) in
    let (f, u, n) = own_branch date_ref line (branch line) s in
    ap (λ (t : Scan). contains line.id t.lines2invoice)
      (scan-append date_ref line.id before (line ∷ after) start)
    ∙ contains-scan_lines date_ref line.id after (scan_line date_ref line s) f u n ha
        (record { found = v.found; in_section = v.in_section; in_note = v.in_note })
    ∙ own-selected date_ref line (branch line) before after
