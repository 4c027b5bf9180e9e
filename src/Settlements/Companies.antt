-- ===== src/Settlements/Companies.antt =====
-- The lines of an agent, split by their companies.
use projectname.Prelude.{
  ℕ, ◌+◌, ◌*◌, ◌≡◌, refl, ap, ◌∙◌, Bool, true, false, ◌||◌, List, [], ◌∷◌, ◌==◌, arith,
  if◌then◌else◌, inl, inr, Bool-cases,
}
use projectname.Settlements.Database.{AgentLine}
use projectname.Settlements.Settle.{of_company, without, mapped_companies}
use projectname.Settlements.Numbered.{one_if}
use projectname.Settlements.Added.{is_put, put_count}

-- How often a company is in the list.
abbrev occurrences : ℕ → List ℕ → ℕ
occurrences c [] = 0
occurrences c (d ∷ ds) = one_if (d == c) + occurrences c ds

abbrev has_company : ℕ → List AgentLine → Bool
has_company c [] = false
has_company c (line ∷ lines) = (line.company_id == c) || has_company c lines

abbrev pub put_companies : ℕ → List AgentLine → List ℕ → ℕ
put_companies i lines [] = 0
put_companies i lines (c ∷ cs) = put_count i (of_company c lines) + put_companies i lines cs

==_sym : (a b : ℕ) → (b == a) ≡ (a == b)
==_sym a b = ground arith

put_companies-line :
    (i : ℕ) (line : AgentLine) (lines : List AgentLine) (cs : List ℕ)
    → put_companies i (line ∷ lines) cs
      ≡ occurrences line.company_id cs * one_if (is_put i line) + put_companies i lines cs
unfolding of_company
put_companies-line i line lines [] = omega arith
put_companies-line i line lines (c ∷ cs) =
    let e = put_companies-line i line lines cs in
    elim (Bool-cases (line.company_id == c)) [
      | inl same ↦ rw (same, ==_sym line.company_id c ∙ same) (grind (arith, e))
      | inr other ↦ rw (other, ==_sym line.company_id c ∙ other) (grind (arith, e))
    ]

occurrences-without :
    (c d : ℕ) (cs : List ℕ)
    → occurrences c (without d cs) ≡ (if d == c then 0 else occurrences c cs)
unfolding without
occurrences-without c d [] = ground arith
occurrences-without c d (x ∷ xs) = ground (arith, occurrences-without c d xs)

occurrences-mapped :
    (c : ℕ) (lines : List AgentLine)
    → occurrences c (mapped_companies lines) ≡ one_if (has_company c lines)
unfolding mapped_companies
occurrences-mapped c [] = refl
occurrences-mapped c (line ∷ lines) =
    rw (occurrences-without c line.company_id (mapped_companies lines))
      (ground (arith, occurrences-mapped c lines))

put_companies-none : (i : ℕ) (cs : List ℕ) → put_companies i [] cs ≡ 0
unfolding of_company
put_companies-none i [] = refl
put_companies-none i (c ∷ cs) = let e = put_companies-none i cs in omega arith

-- A list of companies that has those of the lines once each.
put_companies-once :
    (i : ℕ) (lines : List AgentLine) (cs : List ℕ)
    → ((c : ℕ) → has_company c lines ≡ true → occurrences c cs ≡ 1)
    → put_companies i lines cs ≡ put_count i lines
put_companies-once i [] cs h = put_companies-none i cs
put_companies-once i (line ∷ lines) cs h =
    let one = h line.company_id (ground arith) in
    let rest = put_companies-once i lines cs (λ c k. h c (ground arith)) in
    put_companies-line i line lines cs ∙ (rw (one, rest) (omega arith))

pub put_companies-mapped :
    (i : ℕ) (lines : List AgentLine)
    → put_companies i lines (mapped_companies lines) ≡ put_count i lines
put_companies-mapped i lines =
    put_companies-once i lines (mapped_companies lines)
      (λ c h. occurrences-mapped c lines ∙ ap one_if h)
