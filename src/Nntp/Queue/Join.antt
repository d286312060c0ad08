-- ===== src/Nntp/Queue/Join.antt =====
-- `join_postthread` does not wait for ever: behind it the posting thread leaves within two steps.
use nntp_tools.Prelude.{
  ◌≡◌, ◌≢◌, refl, Bool, true, false, List, [], ◌∷◌, Option, Bytes, ok, >>=-eq-ok, transport_ok, inl,
  inr, ◌⊎◌,
}
use nntp_tools.Nntp.Session.{Session, drain}
use nntp_tools.Nntp.Queue.{
  Job, Phase, running, connecting, waiting, finished, Queue, rest, greet, empty_queue, step_at,
  postthread, Reached,
}
use nntp_tools.Nntp.Queue.Order.{IsRested, Reached-IsOrdered}

rest-done : {done : Bool} → done ≡ true → rest done ≡ finished
unfolding rest
rest-done h = rw h refl

module _ (nntpauth : Option Bytes) (helper : List Bytes → Option (List Bytes × Bytes)) where
  -- The thread has left, or will leave with its next step.
  IsLeaving : Queue → Type 0
  IsLeaving q = (q.done ≡ true) × ((q.phase ≡ connecting) ⊎ (q.phase ≡ finished))

  empty_queue-finished :
      (q r : Queue) (s : Session)
      → q.done ≡ true
      → empty_queue nntpauth helper q s ≡ ok r
      → r.phase ≡ finished
  unfolding empty_queue
  empty_queue-finished q r s done h =
      let (t, drained, returns) = >>=-eq-ok (drain nntpauth helper q.jobs s) _ h in
      transport_ok (λ r. r.phase ≡ finished) (rest-done done) returns

  empty_queue-done :
      (q r : Queue) (s : Session)
      → q.done ≡ true
      → empty_queue nntpauth helper q s ≡ ok r
      → r.done ≡ true
  unfolding empty_queue
  empty_queue-done q r s done h =
      let (t, drained, returns) = >>=-eq-ok (drain nntpauth helper q.jobs s) _ h in
      transport_ok (λ r. r.done ≡ true) done returns

  step_at-IsLeaving :
      (q r : Queue) (p : Phase) (js : List Job) (c : Bool)
      → q.phase ≡ p
      → p ≢ waiting
      → q.done ≡ true
      → step_at nntpauth helper q p js c ≡ ok r
      → IsLeaving r
  unfolding step_at IsLeaving
  step_at-IsLeaving q r running [] c place awake done h =
      transport_ok IsLeaving (done, inr (rest-done done)) h
  step_at-IsLeaving q r running (j ∷ js) true place awake done h =
      (empty_queue-done q r q.session done h, inr (empty_queue-finished q r q.session done h))
  step_at-IsLeaving q r running (j ∷ js) false place awake done h =
      transport_ok IsLeaving (done, inl refl) h
  step_at-IsLeaving q r connecting js c place awake done h =
      let (s, greeted, h') = >>=-eq-ok (greet q.session) _ h in
      (empty_queue-done q r s done h', inr (empty_queue-finished q r s done h'))
  step_at-IsLeaving q r waiting js c place awake done h = absurd (awake refl)
  step_at-IsLeaving q r finished js c place awake done h =
      transport_ok IsLeaving (done, inr place) h

  -- A thread that is leaving has left after one more step.
  step_at-finished :
      (q r : Queue) (p : Phase) (js : List Job) (c : Bool)
      → q.phase ≡ p
      → (p ≡ connecting) ⊎ (p ≡ finished)
      → q.done ≡ true
      → step_at nntpauth helper q p js c ≡ ok r
      → r.phase ≡ finished
  unfolding step_at
  step_at-finished q r running js c place late done h = elim late [ inl e ↦ cc e | inr e ↦ cc e ]
  step_at-finished q r connecting js c place late done h =
      let (s, greeted, h') = >>=-eq-ok (greet q.session) _ h in empty_queue-finished q r s done h'
  step_at-finished q r waiting js c place late done h = elim late [ inl e ↦ cc e | inr e ↦ cc e ]
  step_at-finished q r finished js c place late done h =
      transport_ok (λ r. r.phase ≡ finished) place h

  awake : (p : Phase) (js : List Job) {done : Bool} → done ≡ true → IsRested p js done → p ≢ waiting
  awake running js d i = cc
  awake connecting js d i = cc
  awake waiting js d i = cc (d, i.1)
  awake finished js d i = cc

  -- Once `join_postthread` has set `postdone`, the posting thread is not waiting, and two steps of its
  -- own, if neither ends the process, bring it out of its loop.
  pub postthread-finished :
      (start : Session) {q r s : Queue} {posted : List Job}
      → Reached nntpauth helper start q posted
      → q.done ≡ true
      → postthread nntpauth helper q ≡ ok r
      → postthread nntpauth helper r ≡ ok s
      → (q.phase ≢ waiting) × (s.phase ≡ finished)
  unfolding postthread IsLeaving
  postthread-finished start {q} {r} {s} run done first second =
      let i = Reached-IsOrdered nntpauth helper start run in
      let up = awake q.phase q.jobs done i.rested in
      let leaving = step_at-IsLeaving q r q.phase q.jobs q.connected refl up done first in
      (up, step_at-finished r s r.phase r.jobs r.connected refl leaving.1 leaving.0 second)
