-- ===== src/Surfaces/Outbox/Settles.antt =====
-- crates/surfaces/src/outbox.rs with crates/protocol/src/response.rs: a whole response ends the attempt.
use rsntr.Base.{
  ◌≡◌, ◌≢◌, refl, ◌∙◌, Bool, true, false, Option, none, some, List, [], ◌∷◌, map, arith, Str,
}
use rsntr.Protocol.Envelope.{EnvelopeObject}
use rsntr.Protocol.Response.{
  Result, ok, err, ResponseEvent, ResponseReader, accept, finish, read_all, is_terminal,
  is_finished,
}
use rsntr.Protocol.Response.Accepts.{accept-is_terminal}
use rsntr.Surfaces.Outbox.{frame, Ended, outcome, truncated, retried, Texts, on_event, read_frames}

module _ {Value Body : Type 0} (texts : Texts Value Body) where
  -- The loop ended with an outcome.
  abbrev pub EndsWell : Ended → Type 0
  EndsWell (outcome o rows) = Unit
  EndsWell truncated = ⊥
  EndsWell retried = ⊥

  abbrev EndsIf : Bool → Option Ended → Type 0
  EndsIf true (some end) = EndsWell end
  EndsIf true none = ⊥
  EndsIf false (some end) = ⊥
  EndsIf false none = Unit

  on_event-EndsIf :
      (columns rows : List Str) (event : ResponseEvent Value Body)
      → EndsIf (is_terminal event) ((on_event texts columns rows event).0)
  unfolding on_event is_terminal
  on_event-EndsIf columns rows (ResponseEvent.header h) = tt
  on_event-EndsIf columns rows (ResponseEvent.rows rs) = tt
  on_event-EndsIf columns rows (ResponseEvent.graph g) = tt
  on_event-EndsIf columns rows (ResponseEvent.generic g) = tt
  on_event-EndsIf columns rows (ResponseEvent.done d) = tt
  on_event-EndsIf columns rows (ResponseEvent.denied d) = tt
  on_event-EndsIf columns rows (ResponseEvent.error e) = tt
  on_event-EndsIf columns rows (ResponseEvent.help s t) = tt
  on_event-EndsIf columns rows (ResponseEvent.media m) = tt

  finish-open : (r : ResponseReader) → is_finished r ≡ false → finish r ≢ ok tt
  unfolding finish is_finished
  finish-open r live e = absurd (ground arith)

  go_on :
      (o : Option Ended) (terminal : Bool) (rest : Ended)
      → EndsIf terminal o
      → (terminal ≡ false → EndsWell rest)
      → EndsWell (elim o [ some end ↦ end | none ↦ rest ])
  go_on (some end) true rest h k = h
  go_on none true rest h k = absurd h
  go_on (some end) false rest h k = absurd h
  go_on none false rest h k = k refl

  -- The loop over frames that a reader takes up to a whole response ends with an outcome.
  pub read_frames-EndsWell :
      (frames : List (EnvelopeObject Value Body)) (r : ResponseReader) (columns rows : List Str)
      → is_finished r ≡ false
      → read_all r frames ≡ ok tt
      → EndsWell (read_frames texts r columns rows (map (λ f. frame f) frames))
  unfolding read_frames read_all
  read_frames-EndsWell [] r columns rows live e = absurd (finish-open r live e)
  read_frames-EndsWell (obj ∷ frames) r columns rows live e =
      took ((accept r obj).0) refl (λ columns' rows' live' e'.
        read_frames-EndsWell frames ((accept r obj).1) columns' rows' live' e')
    where
      took :
          (o : Result (ResponseEvent Value Body))
          → (accept r obj).0 ≡ o
          → ((columns' rows' : List Str)
              → is_finished ((accept r obj).1) ≡ false
              → read_all ((accept r obj).1) frames ≡ ok tt
              → EndsWell
                  (read_frames texts ((accept r obj).1) columns' rows' (map (λ f. frame f) frames)))
          → EndsWell (read_frames texts r columns rows (map (λ f. frame f) (obj ∷ frames)))
      took (err bad) a later = absurd (let f : err bad ≡ ok tt = (rw (a, read_all) at e) in cc)
      took (ok event) a later =
          let finished_now = accept-is_terminal r obj event a in
          let next = on_event texts columns rows event in
          rw (a, read_frames)
            (go_on next.0 (is_terminal event) _ (on_event-EndsIf columns rows event)
              (λ more. later next.1 next.2 (finished_now ∙ more) (rw (a, read_all) at e)))
