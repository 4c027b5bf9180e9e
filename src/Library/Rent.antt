-- ===== src/Library/Rent.antt =====
-- The rents of books: `create` and `write` of local/my_library/models/library_book_rent.py,
-- `book_rent` of local/my_library/models/library_book.py, the wizards book_rent_wizard.py and
-- book_return_wizard.py, and the stages of local/my_library/data/library_stage.xml.
use projectname.Prelude.{
  or_missing, ℕ, suc, ◌==◌, ◌&&◌, ◌||◌, not, Bool, true, false, Option, none, some, List, [], ◌∷◌,
  ◌++◌, Result, ok, err, raise_if, ◌>>=◌, ◌>>◌, user_error, attribute_error, if◌then◌else◌,
}
use projectname.Library.Book.{BookState, available, borrowed, lost, Book}

-- A stage has no state 'draft' to give.
pub data StageState : Type 0 where
  stage_available stage_borrowed stage_lost : StageState

pub record Stage : Type 0 where
  pub id : ℕ
  pub sequence : ℕ
  pub book_state : Option StageState

-- `is_ongoing` is that the state is 'ongoing' and not 'returned'.
pub record Rent : Type 0 where
  pub id : ℕ
  pub book_id : ℕ
  pub borrower_id : ℕ
  pub is_ongoing : Bool
  pub rent_date : ℕ
  pub stage_id : Option Stage

-- The stages are in the order of `_order`.
pub record Shelf : Type 0 where
  pub books : List Book
  pub rents : List Rent
  pub stages : List Stage
  pub next_rent : ℕ

abbrev pub book_state_of : StageState → BookState
book_state_of stage_available = available
book_state_of stage_borrowed = borrowed
book_state_of stage_lost = lost

unfoldable pub find_book : ℕ → List Book → Option Book
find_book i [] = none
find_book i (book ∷ books) = if book.id == i then some book else find_book i books

unfoldable pub put_state : ℕ → BookState → List Book → List Book
put_state i s [] = []
put_state i s (book ∷ books) =
    if book.id == i then record book { state = s } ∷ books else book ∷ put_state i s books

-- `_default_rent_stage`
abbrev pub default_rent_stage : List Stage → Option Stage
default_rent_stage [] = none
default_rent_stage (stage ∷ stages) = some stage

abbrev pub given_state : Option Stage → Option StageState
given_state none = none
given_state (some stage) = stage.book_state

-- `if stage_id.book_state: book_id.state = stage_id.book_state`
abbrev pub move_book : Option StageState → ℕ → List Book → List Book
move_book none i books = books
move_book (some s) i books = put_state i (book_state_of s) books

-- The `create` of a rent of a book and a borrower, with the defaults of the other fields.
unfoldable pub create_rent : ℕ → ℕ → ℕ → Shelf → Shelf
create_rent today book borrower shelf =
    let stage = default_rent_stage shelf.stages in
    record shelf {
      rents =
          shelf.rents
          ++ (record {
            id = shelf.next_rent;
            book_id = book;
            borrower_id = borrower;
            is_ongoing = true;
            rent_date = today;
            stage_id = stage;
          }
              ∷ []);
      next_rent = suc shelf.next_rent;
      books = move_book (given_state stage) book shelf.books;
    }

abbrev pub is_available : BookState → Bool
is_available available = true
is_available _ = false

-- `book_rent` of a book, by the user's partner.
unfoldable pub book_rent : ℕ → ℕ → ℕ → Shelf → Result Shelf
book_rent today user i shelf = do
  book ← or_missing (find_book i shelf.books)
  raise_if (not (is_available book.state)) user_error
  ok (create_rent today i user shelf)

-- `add_book_rents` of one wizard. The books are what is read of its field `book_ids`, which leaves
-- out archived ones.
unfoldable pub add_book_rents : ℕ → ℕ → List ℕ → Shelf → Shelf
add_book_rents today borrower [] shelf = shelf
add_book_rents today borrower (book ∷ books) shelf =
    add_book_rents today borrower books (create_rent today book borrower shelf)

abbrev pub is_in : ℕ → List ℕ → Bool
is_in i [] = false
is_in i (j ∷ js) = i == j || is_in i js

-- The rents that `books_returns` finds.
unfoldable pub loans : ℕ → List ℕ → List Rent → List Rent
loans borrower books [] = []
loans borrower books (rent ∷ rents) =
    let rest = loans borrower books rents in
    if rent.is_ongoing && is_in rent.book_id books && rent.borrower_id == borrower
    then rent ∷ rest
    else rest

-- `mapped('book_id')` of the rents that `onchange_member` finds.
unfoldable pub member_books : ℕ → List ℕ → List Rent → List ℕ
member_books borrower found [] = found
member_books borrower found (rent ∷ rents) =
    member_books borrower
      (if rent.is_ongoing && rent.borrower_id == borrower && not (is_in rent.book_id found)
        then found ++ (rent.book_id ∷ [])
        else found)
      rents

-- The method `book_return` that is called on each loan is not there.
abbrev pub return_each : List Rent → Shelf → Result Shelf
return_each [] shelf = ok shelf
return_each (rent ∷ rents) shelf = err attribute_error

unfoldable pub books_returns : ℕ → List ℕ → Shelf → Result Shelf
books_returns borrower books shelf = return_each (loans borrower books shelf.rents) shelf

abbrev pub is_active : Option Book → Bool
is_active none = false
is_active (some book) = book.active

-- What is read of the wizard's field `book_ids`: Odoo leaves out the books that are archived.
unfoldable pub active_books : List Book → List ℕ → List ℕ
active_books books [] = []
active_books books (i ∷ found) =
    let rest = active_books books found in if is_active (find_book i books) then i ∷ rest else rest

-- `return_all_books` of a user's partner.
unfoldable pub return_all_books : ℕ → Shelf → Result Shelf
return_all_books borrower shelf =
    books_returns borrower (active_books shelf.books (member_books borrower [] shelf.rents)) shelf

-- The stages of the data file.
unfoldable pub library_stages : List Stage
library_stages =
    record { id = 1; sequence = 1; book_state = some stage_available }
    ∷ record { id = 2; sequence = 5; book_state = some stage_borrowed }
    ∷ record { id = 3; sequence = 15; book_state = some stage_borrowed }
    ∷ record { id = 4; sequence = 25; book_state = some stage_available }
    ∷ record { id = 5; sequence = 35; book_state = some stage_lost }
    ∷ []
