-- ===== src/Wildberries/Retry.antt =====
-- The repetition of requests in `_do_request`.
use projectname.Prelude.{
  ℕ, zero, suc, ◌+◌, ◌<◌, ◌≡◌, refl, ◌∙◌, ap, subst, Bool, true, false, arith, Option, some, List,
  ◌⊎◌, inl, inr, ◌==◌,
}
use projectname.Wildberries.Rows.{Item}
use projectname.Wildberries.World.{World, Outcome, unfinished, orders, sales}
use projectname.Wildberries.Service.{
  answer, Server, Request, Content, is_retried, read_response, do_request,
}

module _ (server : Server) (request : Request) where
  abbrev pub retried : ℕ → Bool
  retried n = is_retried request (server n request)

  -- What is read of the answer to the n-th request, if it is the last.
  abbrev pub served : ℕ → World → Outcome Content × World
  served n w = read_response (server n request) (record w { requests = suc n })

  do_request-again :
      (fuel : ℕ) (w : World)
      → retried w.requests ≡ true
      → do_request server (suc fuel) request w
        ≡ do_request server fuel request (record w { requests = suc w.requests })
  unfolding do_request
  do_request-again fuel w h = rw h refl

  do_request-last :
      (fuel : ℕ) (w : World)
      → retried w.requests ≡ false
      → do_request server (suc fuel) request w ≡ served w.requests w
  unfolding do_request
  do_request-last fuel w h = rw h refl

  -- If the server answers `waits` requests in a way that is to be repeated, and the next one in
  -- another way, then that answer is what `_do_request` reads, after so many requests and one.
  pub do_request-waits :
      (waits fuel : ℕ) (w : World)
      → waits < fuel
      → ((i : ℕ) → i < waits → retried (w.requests + i) ≡ true)
      → retried (w.requests + waits) ≡ false
      → do_request server fuel request w ≡ served (w.requests + waits) w
  do_request-waits waits zero w h again last = absurd (omega arith)
  do_request-waits zero (suc fuel) w h again last =
      do_request-last fuel w (subst (λ n. retried n ≡ false) (omega arith) last)
      ∙ ap (λ n. served n w) (omega arith)
  do_request-waits (suc waits) (suc fuel) w h again last =
      do_request-again fuel w (subst (λ n. retried n ≡ true) (omega arith) (again 0 (omega arith)))
      ∙ do_request-waits waits fuel (record w { requests = suc w.requests }) (omega arith)
          (λ i below. subst (λ n. retried n ≡ true) (omega arith) (again (suc i) (omega arith)))
          (subst (λ n. retried n ≡ false) (omega arith) last)
      ∙ ap (λ n. served n w) (omega arith)

  refused-is_retried :
      request.report ≡ orders ⊎ request.report ≡ sales
      → request.flag ≡ some 1
      → (n status : ℕ) (body : Option (List Item)) → server n request ≡ answer status body
      → (status == 200) ≡ false
      → retried n ≡ true
  unfolding is_retried
  refused-is_retried (inl report) flag n status body answered refused =
      rw (answered, report, flag, refused) refl
  refused-is_retried (inr report) flag n status body answered refused =
      rw (answered, report, flag, refused) refl

  do_request-all_retried :
      (fuel : ℕ) (w : World)
      → ((n : ℕ) → retried n ≡ true)
      → do_request server fuel request w ≡ (unfinished, record w { requests = fuel + w.requests })
  do_request-all_retried zero w again =
      let none_made : w.requests ≡ 0 + w.requests = omega arith in
      unfold do_request in ap (λ n. (unfinished, record w { requests = n })) none_made
  do_request-all_retried (suc fuel) w again =
      do_request-again fuel w (again w.requests)
      ∙ do_request-all_retried fuel (record w { requests = suc w.requests }) again
      ∙ ap (λ n. (unfinished, record w { requests = n })) (omega arith)

  -- A request of orders or sales with the flag 1 does not end if the server answers each time with
  -- a status that is not 200, whichever it is: for each number of rounds, the call has made so many
  -- requests, changed nothing, and is not at its end.
  pub do_request-unfinished :
      (fuel : ℕ) (w : World)
      → request.report ≡ orders ⊎ request.report ≡ sales
      → request.flag ≡ some 1
      → ((n : ℕ)
          → (status : ℕ) × (body : Option (List Item)) × (server n request ≡ answer status body)
            × ((status == 200) ≡ false))
      → do_request server fuel request w ≡ (unfinished, record w { requests = fuel + w.requests })
  do_request-unfinished fuel w report flag refusing = do_request-all_retried fuel w (λ n.
      let (status, body, answered, refused) = refusing n in
      refused-is_retried report flag n status body answered refused)
