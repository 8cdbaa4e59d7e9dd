-- ===== src/Evm/Listen/Laws.antt =====
-- What the listener of relayer/chains/evm/listener.go reports after a failure.
use centralized_relay.Common.{
  ℕ, ◌+◌, ◌^◌, ◌≤◌, ◌<◌, ◌≡◌, refl, sym, subst, List, [], ◌∷◌, ◌++◌, Bool, Text, Result, ok, Error,
  In, In-append_left, In-append_right,
}
use centralized_relay.Types.Message.{Message, BlockInfo}
use centralized_relay.Evm.Heights.Laws.{info_of, catch_up_complete}
use centralized_relay.Evm.Listen.{
  ListenerState, Occurrence, timer, failure, arrival, latest_height, on_timer, on_arrival,
  listener_step, run_listener,
}

module _ {L : Type 0} (height_of : L → ℕ) (message_of : L → Result Message) where
  module _ (fetch : ℕ × ℕ → Result (List L)) (batch : ℕ) (error_text : Error → Text)
      (is_deadline : Error → Bool) where
    -- What was sent stays sent.
    listener_step-sent :
        (b : BlockInfo) (o : Occurrence L) (s : ListenerState)
        → In b s.sent
        → In b (listener_step height_of message_of fetch batch error_text is_deadline o s).sent
    unfolding listener_step on_timer on_arrival
    listener_step-sent b (timer answer) s i = In-append_left b s.sent _ i
    listener_step-sent b (failure e answer saved) s i = i
    listener_step-sent b (arrival l) s i = In-append_left b s.sent _ i

    run_listener-sent :
        (b : BlockInfo) (os : List (Occurrence L)) (s : ListenerState)
        → In b s.sent
        → In b (run_listener height_of message_of fetch batch error_text is_deadline os s).sent
    unfolding run_listener
    run_listener-sent b [] s i = i
    run_listener-sent b (o ∷ os) s i = run_listener-sent b os _ (listener_step-sent b o s i)

    run_listener-append :
        (os ps : List (Occurrence L)) (s : ListenerState)
        → run_listener height_of message_of fetch batch error_text is_deadline (os ++ ps) s
          ≡ run_listener height_of message_of fetch batch error_text is_deadline ps
              (run_listener height_of message_of fetch batch error_text is_deadline os s)
    unfolding run_listener
    run_listener-append [] ps s = refl
    run_listener-append (o ∷ os) ps s = run_listener-append os ps _

    -- However the listener ran before a subscription failed, and whatever happens later: once the timer
    -- has run after the failure, every message has been sent that a log carries between the height that
    -- was saved and the latest one, if the chain returns the log for every range around it.
    pub run_listener_recovers :
        (before later : List (Occurrence L)) (s : ListenerState) (e : Error)
        (answer : Result (Unit {0})) (saved latest : ℕ) (l : L) (m : Message)
        → 0 < batch
        → latest + batch < 2 ^ 64
        → 0 < saved
        → saved ≤ height_of l
        → height_of l ≤ latest
        → ((r : ℕ × ℕ)
            → r.0 ≤ height_of l
            → height_of l ≤ r.1
            → (logs : List L) × (fetch r ≡ ok logs) × In l logs)
        → message_of l ≡ ok m
        → In
            (info_of height_of message_of l m)
            (run_listener height_of message_of fetch batch error_text is_deadline
              (before ++ failure e answer saved ∷ timer (ok latest) ∷ later)
              s).sent
    unfolding run_listener listener_step on_timer latest_height
    run_listener_recovers before later s e answer saved latest l m p fits positive from to found g =
        let ended = run_listener height_of message_of fetch batch error_text is_deadline before s in
        subst (λ u. In (info_of height_of message_of l m) u.sent)
          (sym (run_listener-append before (failure e answer saved ∷ timer (ok latest) ∷ later) s))
          (run_listener-sent (info_of height_of message_of l m) later _ (
            In-append_right (info_of height_of message_of l m) ended.sent _ (
              catch_up_complete height_of message_of fetch batch latest saved l m p fits positive
                from to found g)))
