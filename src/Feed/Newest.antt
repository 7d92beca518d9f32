-- ===== src/Feed/Newest.antt =====
-- The backlog of a viewer against the log of all frames that it was offered.
use unidenr8_bluetooth.Prelude.{
  drop-append_le, drop-drop, length-drop, append_assoc, ℕ, suc, ◌+◌, ◌-◌, ◌≡◌, refl, List, [], ◌∷◌,
  ◌++◌, leb, if-each, length, length-append, drop, arith, ap, sym, ◌∙◌, subst, append_nil,
}
use unidenr8_bluetooth.Feed.{client_queue, Frame, Client, new_client, make_way, offer, offers}

-- the abstract viewer: every frame that it was ever offered
abbrev Log : Type 0
Log = List Frame

-- the backlog holds the newest frames of the log, as many as fit, and counts the others
pub record IsNewest (log : Log) (c : Client) : Type 0 where
  pub newest : c.queue ≡ drop c.dropped log
  pub count : c.dropped ≡ length log - client_queue

-- a backlog whose parts are as told
abbrev client : List Frame → ℕ → Client
client queue dropped = record { queue = queue; dropped = dropped }

same_client :
    (queue q : List Frame) (dropped d : ℕ)
    → queue ≡ q
    → dropped ≡ d
    → client queue dropped ≡ client q d
same_client queue q dropped d e h = rw (e, h) refl

-- the loop drops what is too much
make_way-drops :
    (queue : List Frame) (dropped : ℕ)
    → make_way queue dropped
      ≡ client
          (drop (length queue + 1 - client_queue) queue)
          (dropped + (length queue + 1 - client_queue))
unfolding make_way
make_way-drops [] dropped =
    same_client [] (drop (0 + 1 - client_queue) []) dropped (dropped + (0 + 1 - client_queue)) refl
      (omega arith)
make_way-drops (frame ∷ queue) dropped =
    let n = length queue in
    let all = frame ∷ queue in
    if-each
      (λ c. c ≡ client (drop (suc n + 1 - client_queue) all) (dropped + (suc n + 1 - client_queue)))
      (leb client_queue (suc n)) _ _
      (λ full.
        let more : suc n + 1 - client_queue ≡ suc (n + 1 - client_queue) = ground arith in
        make_way-drops queue (dropped + 1)
        ∙ same_client (drop (n + 1 - client_queue) queue) (drop (suc n + 1 - client_queue) all)
            (dropped + 1 + (n + 1 - client_queue)) (dropped + (suc n + 1 - client_queue))
            (ap (λ k. drop k all) (sym more)) (omega (arith, more)))
      (λ room.
        let none_more : suc n + 1 - client_queue ≡ 0 = ground arith in
        same_client all (drop (suc n + 1 - client_queue) all) dropped
          (dropped + (suc n + 1 - client_queue)) (ap (λ k. drop k all) (sym none_more))
          (omega (arith, none_more)))

offer-IsNewest :
    (frame : Frame) (log : Log) (c : Client)
    → IsNewest log c
    → IsNewest (log ++ (frame ∷ [])) (offer frame c)
unfolding offer
offer-IsNewest frame log c h =
    let k = length c.queue + 1 - client_queue in
    let e = make_way-drops c.queue c.dropped in
    let held : length c.queue ≡ length log - c.dropped =
      ap length h.newest ∙ length-drop c.dropped log in
    let total = length-append log (frame ∷ []) in
    record {
      newest =
          ap (λ (x : Client). x.queue ++ (frame ∷ [])) e
          ∙ ap (λ q. drop k q ++ (frame ∷ [])) h.newest
          ∙ ap (λ q. q ++ (frame ∷ [])) (drop-drop k c.dropped log)
          ∙ sym (drop-append_le (c.dropped + k) log (frame ∷ []) (omega (arith, held, h.count)))
          ∙ ap (λ (x : Client). drop x.dropped (log ++ (frame ∷ []))) (sym e);
      count = ap (λ (x : Client). x.dropped) e ∙ omega (arith, held, h.count, total);
    }

offers_after-IsNewest :
    (frames : List Frame) (log : Log) (c : Client)
    → IsNewest log c
    → IsNewest (log ++ frames) (offers frames c)
unfolding offers
offers_after-IsNewest [] log c h = let e : log ++ [] ≡ log = append_nil log in rw e h
offers_after-IsNewest (frame ∷ frames) log c h =
    subst (λ l. IsNewest l (offers (frame ∷ frames) c)) (append_assoc log (frame ∷ []) frames)
      (offers_after-IsNewest frames (log ++ (frame ∷ [])) (offer frame c)
        (offer-IsNewest frame log c h))

-- The backlog refines the log of every frame that a viewer was offered: after any frames it holds
-- the newest ones of them, at most as many as the queue's limit, and counts those that it dropped.
pub offers-IsNewest : (frames : List Frame) → IsNewest frames (offers frames new_client)
offers-IsNewest frames =
    offers_after-IsNewest frames [] new_client (record { newest = refl; count = omega arith })
