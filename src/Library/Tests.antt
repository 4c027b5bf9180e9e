-- ===== src/Library/Tests.antt =====
-- The theorems about books at one shelf.
use projectname.Prelude.{
  returned, ℕ, ◌≡◌, refl, true, false, not, some, none, ok, [], ◌∷◌, ◌++◌, if◌then◌else◌,
}
use projectname.Library.Book.{
  borrowed, BookState, available, lost, Book, is_allowed_transition, change_one, change_state,
  with_category, category_of, make_borrowed, make_lost,
}
use projectname.Library.Dated.{on, Reach, here, next, borrowed_by, lost_by, all_dated, Reach-dated}
use projectname.Library.Rent.{
  Shelf, find_book, create_rent, book_rent, add_book_rents, is_in, return_all_books, library_stages,
  books_returns, active_books, member_books, loans,
}
use projectname.Library.Renting.{
  state_at, now_available, new_rent, add_book_rents-available, book_rent-again,
}
use projectname.Library.Returning.{has_ongoing, return_all_books-ongoing}

abbrev book_of : ℕ → BookState → Book
book_of i s = record { id = i; state = s; active = true; date_return = none; category_id = none }

abbrev shelf : Shelf
shelf = record {
  books = book_of 1 available ∷ book_of 2 lost ∷ [];
  rents = [];
  stages = library_stages;
  next_rent = 1;
}

add_book_rents-available_example :
    state_at 2 (add_book_rents 90 5 (2 ∷ []) shelf).books
    ≡ (if is_in 2 (2 ∷ []) then now_available (state_at 2 shelf.books) else state_at 2 shelf.books)
add_book_rents-available_example = add_book_rents-available 90 5 2 (2 ∷ []) shelf refl

rented : book_rent 90 5 1 shelf ≡ ok (create_rent 90 1 5 shelf)
unfolding book_rent find_book
rented = refl

book_rent-again_example :
    (state_at 1 (create_rent 90 1 5 shelf).books ≡ some available)
    × (shelf'' : Shelf) × (book_rent 91 6 1 (create_rent 90 1 5 shelf) ≡ ok shelf'')
    × (shelf''.rents ≡ [] ++ (new_rent 1 90 1 5 ∷ new_rent 2 91 1 6 ∷ []))
book_rent-again_example = book_rent-again 90 5 1 91 6 shelf (create_rent 90 1 5 shelf) refl rented

return_all_books-ongoing_example :
    returned (return_all_books 5 (create_rent 90 1 5 shelf))
    ≡ not (has_ongoing 5 (create_rent 90 1 5 shelf).books (create_rent 90 1 5 shelf).rents)
return_all_books-ongoing_example = return_all_books-ongoing 5 (create_rent 90 1 5 shelf)

abbrev lent : Book
lent = record (book_of 1 borrowed) { date_return = some 100 }

abbrev lost_book : Book
lost_book = record (book_of 1 lost) { active = false; date_return = some 100 }

-- The rent of a book that is archived stops nothing.
archived_is_ignored :
    returned (return_all_books 5 (record (create_rent 90 1 5 shelf) { books = lost_book ∷ [] }))
    ≡ true
unfolding return_all_books books_returns active_books member_books loans find_book create_rent
    library_stages
archived_is_ignored = refl

-- Borrowed on day 90, and then lost, beside another book.
path : Reach (book_of 2 lost ∷ book_of 1 available ∷ []) (book_of 2 lost ∷ lost_book ∷ [])
unfolding make_borrowed make_lost category_of with_category change_state change_one
    is_allowed_transition
path =
    next
      (next here
        (on (book_of 2 lost ∷ []) (book_of 1 available ∷ []) (lent ∷ []) [] (borrowed_by 90 refl)))
      (on (book_of 2 lost ∷ []) (lent ∷ []) (lost_book ∷ []) [] (lost_by false refl))

Reach-dated_example : all_dated (book_of 2 lost ∷ lost_book ∷ []) ≡ true
Reach-dated_example = Reach-dated refl path
