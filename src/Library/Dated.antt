-- ===== src/Library/Dated.antt =====
-- The return dates of books.
use mathlib.Core.Bool.{and_assoc}
use projectname.Prelude.{
  sym, ◌++◌, ◌∙◌, and_parts, ok_inj, ℕ, ◌≡◌, refl, subst, ◌&&◌, not, Bool, true, Option, none, List,
  [], ◌∷◌, ok, err, ran, is_set, user_error, inl, inr, Bool-cases,
}
use projectname.Library.Book.{
  BookState, available, borrowed, Book, is_allowed_transition, change_one, change_state,
  put_date_return, category_of, make_borrowed, make_available, make_lost,
}

-- A borrowed book has a return date, an available book has none.
abbrev pub dated : BookState → Option ℕ → Bool
dated borrowed d = is_set d
dated available d = not (is_set d)
dated _ d = true

abbrev pub all_dated : List Book → Bool
all_dated [] = true
all_dated (book ∷ books) = dated book.state book.date_return && all_dated books

-- One call on some books that raises nothing.
pub data Call : List Book → List Book → Type 0 where
  borrowed_by : {bs bs' : List Book} (today : ℕ) → make_borrowed today bs ≡ ok bs' → Call bs bs'
  returned_by : {bs bs' : List Book} → make_available bs ≡ ok bs' → Call bs bs'
  lost_by : {bs bs' : List Book} (avoid : Bool) → make_lost avoid bs ≡ ok bs' → Call bs bs'

-- A call on some of the books of a library.
pub data Step : List Book → List Book → Type 0 where
  on :
      (before bs bs' after : List Book)
      → Call bs bs'
      → Step (before ++ (bs ++ after)) (before ++ (bs' ++ after))

pub data Reach (bs : List Book) : List Book → Type 0 where
  here : Reach bs bs
  next : {a b : List Book} → Reach bs a → Step a b → Reach bs b

changed :
    (s : BookState) (d : Option ℕ) (book book' : Book)
    → dated s d ≡ true
    → change_one s (record book { date_return = d }) ≡ ok book'
    → dated book'.state book'.date_return ≡ true
unfolding change_one
changed s d book book' h run = elim (Bool-cases (is_allowed_transition book.state s)) [
  | inl e ↦ subst (λ (b : Book). dated b.state b.date_return ≡ true) (ok_inj (rw e at run)) h
  | inr e ↦ absurd (refused (rw e at run))
]
  where
    refused : err user_error ≡ ok book' → ⊥
    refused h = cc

change_state-dated :
    (s : BookState) (d : Option ℕ) (books books' : List Book)
    → dated s d ≡ true
    → change_state s (put_date_return d books) ≡ ok books'
    → all_dated books' ≡ true
unfolding change_state
change_state-dated s d [] books' h run = subst (λ bs. all_dated bs ≡ true) (ok_inj run) refl
change_state-dated s d (book ∷ books) books' h run =
    let first = ran (change_one s (record book { date_return = d })) _ run in
    let second = ran (change_state s (put_date_return d books)) _ first.rest in
    subst (λ bs. all_dated bs ≡ true) (ok_inj second.rest)
      (rw
        (
          changed s d book first.value h first.called,
          change_state-dated s d books second.value h second.called,
        )
        refl)

make_lost-dated :
    (avoid : Bool) (books books' : List Book)
    → make_lost avoid books ≡ ok books'
    → all_dated books' ≡ true
unfolding make_lost
make_lost-dated avoid [] books' run = absurd cc
make_lost-dated avoid (book ∷ []) books' run = subst (λ bs. all_dated bs ≡ true) (ok_inj run) refl
make_lost-dated avoid (a ∷ b ∷ books) books' run = absurd cc

Call-dated : {bs bs' : List Book} → Call bs bs' → all_dated bs' ≡ true
unfolding make_borrowed make_available
Call-dated (borrowed_by {bs} {bs'} today run) =
    let category = ran (category_of none bs) _ run in
    change_state-dated borrowed _ bs bs' refl category.rest
Call-dated (returned_by {bs} {bs'} run) = change_state-dated available none bs bs' refl run
Call-dated (lost_by {bs} {bs'} avoid run) = make_lost-dated avoid bs bs' run

append-dated :
    (firsts bs : List Book) → all_dated (firsts ++ bs) ≡ (all_dated firsts && all_dated bs)
append-dated [] bs = refl
append-dated (a ∷ firsts) bs =
    rw (append-dated firsts bs)
      (sym (and_assoc (dated a.state a.date_return) (all_dated firsts) (all_dated bs)))

Step-dated : {bs bs' : List Book} → Step bs bs' → all_dated bs ≡ true → all_dated bs' ≡ true
Step-dated (on before bs bs' after call) h =
    let (first, others) =
      and_parts (all_dated before) (all_dated (bs ++ after))
        (sym (append-dated before (bs ++ after)) ∙ h) in
    let (old, last) =
      and_parts (all_dated bs) (all_dated after) (sym (append-dated bs after) ∙ others) in
    append-dated before (bs' ++ after) ∙ rw (first, append-dated bs' after, Call-dated call) last

-- If each borrowed book has a return date and no available book has one, this stays so under any
-- sequence of calls of make_borrowed, make_available and make_lost on some of the books that raise
-- nothing, on any days.
pub Reach-dated : {bs bs' : List Book} → all_dated bs ≡ true → Reach bs bs' → all_dated bs' ≡ true
Reach-dated h here = h
Reach-dated h (next path step) = Step-dated step (Reach-dated h path)
