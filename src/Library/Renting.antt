-- ===== src/Library/Renting.antt =====
-- What renting a book does to it, and returning it.
use mathlib.Core.List.{append_assoc}
use projectname.Prelude.{
  ok_inj, some_inj, or_missing, or_missing-found, ℕ, suc, ◌≡◌, refl, ap, ◌∙◌, subst, ◌==◌, ==_iff,
  ◌||◌, not, Bool, true, false, Option, none, some, List, [], ◌∷◌, ◌++◌, ok, ran, check_ran,
  raise_if, user_error, arith, if◌then◌else◌, inl, inr, Bool-cases,
}
use projectname.Library.Book.{BookState, draft, available, borrowed, lost, Book}
use projectname.Library.Rent.{
  default_rent_stage, is_available, Rent, Shelf, find_book, put_state, create_rent, book_rent,
  add_book_rents, is_in, library_stages,
}

abbrev pub new_rent : ℕ → ℕ → ℕ → ℕ → Rent
new_rent id today book borrower = record {
  id = id;
  book_id = book;
  borrower_id = borrower;
  is_ongoing = true;
  rent_date = today;
  stage_id = default_rent_stage library_stages;
}

-- The state of the book with the id.
abbrev pub state_at : ℕ → List Book → Option BookState
state_at i [] = none
state_at i (book ∷ books) =
    let rest = state_at i books in if book.id == i then some book.state else rest

-- `available`, if there is such a book.
abbrev pub now_available : Option BookState → Option BookState
now_available none = none
now_available (some s) = some available

put_state-state_at :
    (i j : ℕ) (books : List Book)
    → state_at i (put_state j available books)
      ≡ (if i == j then now_available (state_at i books) else state_at i books)
unfolding put_state
put_state-state_at i j [] = ground arith
put_state-state_at i j (book ∷ books) = ground (arith, put_state-state_at i j books)

now_available-twice : (o : Option BookState) → now_available (now_available o) ≡ now_available o
now_available-twice none = refl
now_available-twice (some s) = refl

either_first :
    (a b : Bool) (o : Option BookState)
    → (if b
        then now_available (if a then now_available o else o)
        else (if a then now_available o else o))
      ≡ (if a || b then now_available o else o)
either_first true true o = now_available-twice o
either_first true false o = refl
either_first false b o = refl

create_rent-state_at :
    (today borrower i j : ℕ) (shelf : Shelf)
    → shelf.stages ≡ library_stages
    → state_at i (create_rent today j borrower shelf).books
      ≡ (if i == j then now_available (state_at i shelf.books) else state_at i shelf.books)
unfolding create_rent library_stages
create_rent-state_at today borrower i j shelf h = rw h (put_state-state_at i j shelf.books)

create_rent-stages :
    (today borrower j : ℕ) (shelf : Shelf)
    → (create_rent today j borrower shelf).stages ≡ shelf.stages
unfolding create_rent
create_rent-stages today borrower j shelf = refl

-- With the stages of the addon, the wizard that rents books to a member makes each of them
-- available, whatever its state was, and leaves the states of the other books.
pub add_book_rents-available :
    (today borrower i : ℕ) (ids : List ℕ) (shelf : Shelf)
    → shelf.stages ≡ library_stages
    → state_at i (add_book_rents today borrower ids shelf).books
      ≡ (if is_in i ids then now_available (state_at i shelf.books) else state_at i shelf.books)
unfolding add_book_rents
add_book_rents-available today borrower i [] shelf h = refl
add_book_rents-available today borrower i (j ∷ ids) shelf h =
    add_book_rents-available today borrower i ids (create_rent today j borrower shelf)
      (create_rent-stages today borrower j shelf ∙ h)
    ∙ rw (create_rent-state_at today borrower i j shelf h)
        (either_first (i == j) (is_in i ids) (state_at i shelf.books))

found-state_at :
    (i : ℕ) (book : Book) (books : List Book)
    → find_book i books ≡ some book
    → state_at i books ≡ some book.state
unfolding find_book
found-state_at i book [] h = absurd cc
found-state_at i book (b ∷ books) h = elim (Bool-cases (b.id == i)) [
  | inl e ↦ rw e (ap (λ (x : Book). some x.state) (some_inj (rw e at h)))
  | inr e ↦ rw e (found-state_at i book books (rw e at h))
]

-- The book whose state it is.
available_found :
    (i : ℕ) (books : List Book)
    → state_at i books ≡ some available
    → (book : Book) × (find_book i books ≡ some book) × (book.state ≡ available)
unfolding find_book
available_found i [] h = absurd cc
available_found i (b ∷ books) h = elim (Bool-cases (b.id == i)) [
  | inl e ↦ (b, rw e refl, some_inj (rw e at h))
  | inr e ↦ rw e (available_found i books (rw e at h))
]

available_only :
    (s : BookState) → raise_if (not (is_available s)) user_error ≡ ok tt → s ≡ available
available_only draft h = absurd cc
available_only available h = refl
available_only borrowed h = absurd cc
available_only lost h = absurd cc

second_rent :
    (today user i : ℕ) (shelf : Shelf)
    → state_at i shelf.books ≡ some available
    → book_rent today user i shelf ≡ ok (create_rent today i user shelf)
unfolding book_rent
second_rent today user i shelf h =
    let (book, found, state) = available_found i shelf.books h in rw (found, state) refl

create_rent-rents :
    (today user i : ℕ) (shelf : Shelf)
    → shelf.stages ≡ library_stages
    → ((create_rent today i user shelf).rents
        ≡ shelf.rents ++ (new_rent shelf.next_rent today i user ∷ []))
      × ((create_rent today i user shelf).next_rent ≡ suc shelf.next_rent)
unfolding create_rent
create_rent-rents today user i shelf h = (rw h refl, refl)

first_rent :
    (today user i : ℕ) (shelf shelf' : Shelf)
    → book_rent today user i shelf ≡ ok shelf'
    → (state_at i shelf.books ≡ some available) × (create_rent today i user shelf ≡ shelf')
unfolding book_rent
first_rent today user i shelf shelf' run =
    let first = ran (or_missing (find_book i shelf.books)) _ run in
    let (check, made) =
      check_ran (raise_if (not (is_available first.value.state)) user_error) _ first.rest in
    (
      found-state_at i first.value shelf.books (or_missing-found _ first.value first.called)
          ∙ ap some (available_only first.value.state check),
      ok_inj made,
    )

-- With the stages of the addon, a book that has just been rented can be rented again at once, by
-- anyone on any day: it is still available, and then both rents are ongoing.
pub book_rent-again :
    (today user i today' user' : ℕ) (shelf shelf' : Shelf)
    → shelf.stages ≡ library_stages
    → book_rent today user i shelf ≡ ok shelf'
    → (state_at i shelf'.books ≡ some available)
      × (shelf'' : Shelf) × (book_rent today' user' i shelf' ≡ ok shelf'')
      × (shelf''.rents
          ≡ shelf.rents
            ++ (new_rent shelf.next_rent today i user
                ∷ new_rent (suc shelf.next_rent) today' i user'
                ∷ []))
book_rent-again today user i today' user' shelf shelf' h run =
    let (old, same) = first_rent today user i shelf shelf' run in
    let mid = create_rent today i user shelf in
    let still : state_at i mid.books ≡ some available =
      create_rent-state_at today user i i shelf h ∙ rw ((==_iff i i).1 refl, old) refl in
    let one = create_rent-rents today user i shelf h in
    let two = create_rent-rents today' user' i mid (create_rent-stages today user i shelf ∙ h) in
    subst
      (λ (x : Shelf).
        (state_at i x.books ≡ some available)
        × (y : Shelf) × (book_rent today' user' i x ≡ ok y)
        × (y.rents
            ≡ shelf.rents
              ++ (new_rent shelf.next_rent today i user
                  ∷ new_rent (suc shelf.next_rent) today' i user'
                  ∷ [])))
      same
      (
        still,
        create_rent today' i user' mid,
        second_rent today' user' i mid still,
        two.0 ∙ rw (one.0, one.1) (append_assoc shelf.rents _ _),
      )
