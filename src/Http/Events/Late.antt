-- ===== src/Http/Events/Late.antt =====
-- Events that reach a subscriber out of the order of their numbers. `(*Emitter).Emit` appends an
-- event and publishes it in two steps, so two goroutines that emit at once may publish in the other
-- order than they appended.
use whatsmeow_api.Prelude.{
  ℕ, ◌≤◌, ◌≡◌, refl, ap, ◌⊎◌, List, [], ◌∷◌, ◌++◌, leb, arith, Bool-cases, inl, inr,
}
use whatsmeow_api.Broadcaster.{Event}
use whatsmeow_api.Http.Events.{
  comment, Wake, request_done, heartbeat, channel_closed, channel_event, live_tail, live_frame,
}

-- Some event of the wakes has the number `n` or a larger one.
abbrev pub Passes : ℕ → List Wake → Type 0
Passes n [] = ⊥
Passes n (channel_event ev ∷ ws) = (n ≤ ev.seq) ⊎ Passes n ws
Passes n (_ ∷ ws) = Passes n ws

module _ (ev : Event) (rest : List Wake) where
  old-dropped :
      (last : ℕ) (ws : List Wake)
      → ev.seq ≤ last
      → live_tail last (ws ++ (channel_event ev ∷ rest)) ≡ live_tail last (ws ++ rest)
  unfolding live_tail
  old-dropped last [] old = ground arith
  old-dropped last (request_done ∷ ws) old = refl
  old-dropped last (heartbeat ∷ ws) old = ap (λ os. comment "ping" ∷ os) (old-dropped last ws old)
  old-dropped last (channel_closed ∷ ws) old = refl
  old-dropped last (channel_event e ∷ ws) old = elim (Bool-cases (leb e.seq last)) [
    | inl skipped ↦ rw skipped (old-dropped last ws old)
    | inr shown ↦ rw shown (ap (λ os. live_frame e ∷ os) (old-dropped e.seq ws (ground arith)))
  ]

  -- An event that the channel delivers after one with the same or a larger number never reaches
  -- the client: the stream is the one that it would be without the event.
  pub late-dropped :
      (last : ℕ) (ws : List Wake)
      → Passes ev.seq ws
      → live_tail last (ws ++ (channel_event ev ∷ rest)) ≡ live_tail last (ws ++ rest)
  unfolding live_tail
  late-dropped last [] late = absurd late
  late-dropped last (request_done ∷ ws) late = refl
  late-dropped last (heartbeat ∷ ws) late =
      ap (λ os. comment "ping" ∷ os) (late-dropped last ws late)
  late-dropped last (channel_closed ∷ ws) late = refl
  late-dropped last (channel_event e ∷ ws) late = elim (Bool-cases (leb e.seq last)) [
    | inl skipped ↦ rw skipped (elim late [
      | inl le ↦ old-dropped last ws (ground arith)
      | inr later ↦ late-dropped last ws later
    ])
    | inr shown ↦ rw shown (
        ap (λ os. live_frame e ∷ os)
          (elim late [
            | inl le ↦ old-dropped e.seq ws le
            | inr later ↦ late-dropped e.seq ws later
          ]))
  ]
