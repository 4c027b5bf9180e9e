-- ===== src/Library/Book.antt =====
-- The states of a book: `is_allowed_transition`, `change_state` and `make_lost` of
-- local/my_library/models/library_book.py, and `make_borrowed` and `make_available` as
-- local/my_library_return/models/library_return.py extends them. A method acts on a recordset, the
-- list of its books, and an exception leaves everything as it was.
use projectname.Prelude.{
  ℕ, ◌+◌, ◌==◌, Bool, true, false, Option, none, some, List, [], ◌∷◌, Result, ok, err, ◌>>=◌,
  user_error, value_error, if◌then◌else◌,
}

pub data BookState : Type 0 where
  draft available borrowed lost : BookState

pub record Category : Type 0 where
  pub id : ℕ
  pub max_borrow_days : ℕ

pub record Book : Type 0 where
  pub id : ℕ
  pub state : BookState
  pub active : Bool
  pub date_return : Option ℕ
  pub category_id : Option Category

unfoldable pub is_allowed_transition : BookState → BookState → Bool
is_allowed_transition draft available = true
is_allowed_transition available borrowed = true
is_allowed_transition borrowed available = true
is_allowed_transition available lost = true
is_allowed_transition borrowed lost = true
is_allowed_transition lost available = true
is_allowed_transition _ _ = false

-- One round of the loop of `change_state`.
unfoldable pub change_one : BookState → Book → Result Book
change_one new_state book =
    if is_allowed_transition book.state new_state
    then ok (record book { state = new_state })
    else err user_error

unfoldable pub change_state : BookState → List Book → Result (List Book)
change_state new_state [] = ok []
change_state new_state (book ∷ books) = do
  book' ← change_one new_state book
  rest ← change_state new_state books
  ok (book' ∷ rest)

abbrev pub put_date_return : Option ℕ → List Book → List Book
put_date_return d [] = []
put_date_return d (book ∷ books) = record book { date_return = d } ∷ put_date_return d books

-- `self.category_id`, of which a field is read: an exception for two categories.
unfoldable pub with_category : Option Category → Option Category → Result (Option Category)
with_category none c = ok c
with_category (some c) none = ok (some c)
with_category (some c) (some d) = if c.id == d.id then ok (some c) else err value_error

unfoldable pub category_of : Option Category → List Book → Result (Option Category)
category_of c [] = ok c
category_of c (book ∷ books) = do d ← with_category c book.category_id; category_of d books

-- `max_borrow_days or 10`
abbrev pub or_ten : Option Category → ℕ
or_ten none = 10
or_ten (some c) = if c.max_borrow_days == 0 then 10 else c.max_borrow_days

unfoldable pub make_borrowed : ℕ → List Book → Result (List Book)
make_borrowed today books = do
  category ← category_of none books
  change_state borrowed (put_date_return (some (today + or_ten category)) books)

unfoldable pub make_available : List Book → Result (List Book)
make_available books = change_state available (put_date_return none books)

-- `avoid_deactivate` is a key of the context.
unfoldable pub make_lost : Bool → List Book → Result (List Book)
make_lost avoid_deactivate (book ∷ []) =
    ok (record book { state = lost; active = if avoid_deactivate then book.active else false } ∷ [])
make_lost avoid_deactivate _ = err value_error
