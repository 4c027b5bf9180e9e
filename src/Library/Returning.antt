-- ===== src/Library/Returning.antt =====
-- Returning books.
use mathlib.Core.Bool.{or-true, and-true, and-false}
use projectname.Prelude.{
  and_parts, returned, ℕ, ◌≡◌, refl, sym, ap, ◌∙◌, ◌==◌, ==_iff, ◌&&◌, ◌||◌, not, Bool, true, false,
  List, [], ◌∷◌, ◌++◌, arith, if◌then◌else◌, inl, inr, Bool-cases,
}
use projectname.Library.Book.{Book}
use projectname.Library.Rent.{
  Rent, Shelf, find_book, is_active, active_books, is_in, loans, member_books, return_each,
  books_returns, return_all_books,
}

-- The member has an ongoing rent of a book that is not archived.
abbrev pub has_ongoing : ℕ → List Book → List Rent → Bool
has_ongoing borrower books [] = false
has_ongoing borrower books (rent ∷ rents) =
    (rent.is_ongoing && rent.borrower_id == borrower && is_active (find_book rent.book_id books))
    || has_ongoing borrower books rents

-- The books of the member's ongoing rents are among these.
abbrev covers : ℕ → List ℕ → List Rent → Bool
covers borrower found [] = true
covers borrower found (rent ∷ rents) =
    (not (rent.is_ongoing && rent.borrower_id == borrower) || is_in rent.book_id found)
    && covers borrower found rents

abbrev is_empty : List Rent → Bool
is_empty [] = true
is_empty (r ∷ rs) = false

is_in-append : (i : ℕ) (js ks : List ℕ) → is_in i (js ++ ks) ≡ (is_in i js || is_in i ks)
is_in-append i [] ks = refl
is_in-append i (j ∷ js) ks = ground (arith, is_in-append i js ks)

-- What was found stays found.
abbrev step : ℕ → Rent → List ℕ → List ℕ
step borrower rent found =
    if rent.is_ongoing && rent.borrower_id == borrower && not (is_in rent.book_id found)
    then found ++ (rent.book_id ∷ [])
    else found

step-keeps :
    (borrower i : ℕ) (rent : Rent) (found : List ℕ)
    → is_in i found ≡ true
    → is_in i (step borrower rent found) ≡ true
step-keeps borrower i rent found h =
    elim (Bool-cases
      (rent.is_ongoing && rent.borrower_id == borrower && not (is_in rent.book_id found))) [
        | inl e ↦ rw (e, is_in-append i found (rent.book_id ∷ []), h) refl
        | inr e ↦ rw e h
      ]

member_books-keeps :
    (borrower i : ℕ) (found : List ℕ) (rents : List Rent)
    → is_in i found ≡ true
    → is_in i (member_books borrower found rents) ≡ true
unfolding member_books
member_books-keeps borrower i found [] h = h
member_books-keeps borrower i found (rent ∷ rents) h =
    member_books-keeps borrower i (step borrower rent found) rents
      (step-keeps borrower i rent found h)

last_in : (i : ℕ) (found : List ℕ) → is_in i (found ++ (i ∷ [])) ≡ true
last_in i found = is_in-append i found (i ∷ []) ∙ rw ((==_iff i i).1 refl) (or-true (is_in i found))

step-finds :
    (borrower : ℕ) (rent : Rent) (found : List ℕ)
    → (rent.is_ongoing && rent.borrower_id == borrower) ≡ true
    → is_in rent.book_id (step borrower rent found) ≡ true
step-finds borrower rent found h = elim (Bool-cases (is_in rent.book_id found)) [
  | inl e ↦ step-keeps borrower rent.book_id rent found e
  | inr e ↦ rw (h, e) (last_in rent.book_id found)
]

member_books-covers :
    (borrower : ℕ) (found : List ℕ) (rents : List Rent)
    → covers borrower (member_books borrower found rents) rents ≡ true
unfolding member_books
member_books-covers borrower found [] = refl
member_books-covers borrower found (rent ∷ rents) =
    elim (Bool-cases (rent.is_ongoing && rent.borrower_id == borrower)) [
      | inl e ↦
          rw
            (
              member_books-keeps borrower rent.book_id (step borrower rent found) rents
                  (step-finds borrower rent found e),
              member_books-covers borrower (step borrower rent found) rents,
            )
            (and-true _ ∙ or-true _)
      | inr e ↦ rw (e, member_books-covers borrower (step borrower rent found) rents) refl
    ]

active_there :
    (books : List Book) (i j : ℕ)
    → (i == j) ≡ true
    → is_active (find_book i books) ≡ is_active (find_book j books)
active_there books i j h = ap (λ k. is_active (find_book k books)) ((==_iff i j).0 h)

is_in-active_books :
    (books : List Book) (i : ℕ) (found : List ℕ)
    → is_in i (active_books books found) ≡ (is_active (find_book i books) && is_in i found)
unfolding active_books
is_in-active_books books i [] = sym (and-false (is_active (find_book i books)))
is_in-active_books books i (j ∷ js) = elim (Bool-cases (is_active (find_book j books))) [
  | inl a ↦ elim (Bool-cases (i == j)) [
    | inl e ↦ rw (a, e, active_there books i j e ∙ a) refl
    | inr e ↦ rw (a, e, is_in-active_books books i js) refl
  ]
  | inr a ↦ elim (Bool-cases (i == j)) [
    | inl e ↦ rw (a, is_in-active_books books i js, active_there books i j e ∙ a) refl
    | inr e ↦ rw (a, e, is_in-active_books books i js) refl
  ]
]

one_loan :
    (ongoing member listed active more : Bool) (rent : Rent) (rest : List Rent)
    → (not (ongoing && member) || listed) ≡ true
    → is_empty rest ≡ not more
    → is_empty (if ongoing && (active && listed) && member then rent ∷ rest else rest)
      ≡ not ((ongoing && member && active) || more)
one_loan false member listed active more rent rest h k = k
one_loan true member listed false more rent rest h k = ground arith
one_loan true true false true more rent rest h k = cc
one_loan true false false true more rent rest h k = k
one_loan true false true true more rent rest h k = k
one_loan true true true true more rent rest h k = refl

loans-covers :
    (borrower : ℕ) (books : List Book) (found : List ℕ) (rents : List Rent)
    → covers borrower found rents ≡ true
    → is_empty (loans borrower (active_books books found) rents)
      ≡ not (has_ongoing borrower books rents)
unfolding loans
loans-covers borrower books found [] h = refl
loans-covers borrower books found (rent ∷ rents) h =
    let (now, later) =
      and_parts (not (rent.is_ongoing && rent.borrower_id == borrower) || is_in rent.book_id found)
        (covers borrower found rents) h in
    rw (is_in-active_books books rent.book_id found) (
      one_loan rent.is_ongoing (rent.borrower_id == borrower) (is_in rent.book_id found)
        (is_active (find_book rent.book_id books)) (has_ongoing borrower books rents) rent
        (loans borrower (active_books books found) rents) now
        (loans-covers borrower books found rents later))

returned-each :
    (rents : List Rent) (shelf : Shelf) → returned (return_each rents shelf) ≡ is_empty rents
returned-each [] shelf = refl
returned-each (r ∷ rs) shelf = refl

-- return_all_books of a member returns if and only if the member has no ongoing rent of a book that
-- is not archived.
pub return_all_books-ongoing :
    (borrower : ℕ) (shelf : Shelf)
    → returned (return_all_books borrower shelf)
      ≡ not (has_ongoing borrower shelf.books shelf.rents)
unfolding return_all_books books_returns
return_all_books-ongoing borrower shelf =
    let found = member_books borrower [] shelf.rents in
    returned-each (loans borrower (active_books shelf.books found) shelf.rents) shelf
    ∙ loans-covers borrower shelf.books found shelf.rents
        (member_books-covers borrower [] shelf.rents)
