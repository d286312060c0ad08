-- ===== src/Nntp/Queue/Order.antt =====
-- Every job is handled once, in the order of the calls of `post`, and no wake-up is lost.
use mathlib.Core.Path.{subst}
use nntp_tools.Prelude.{
  ◌≡◌, ◌≢◌, refl, sym, ap, ◌∙◌, Bool, true, false, List, [], ◌∷◌, ◌++◌, append_assoc, append-nil,
  Option, Bytes, ok, >>=-eq-ok, transport_ok,
}
use nntp_tools.Nntp.Session.{Session, drain}
use nntp_tools.Nntp.Queue.{
  Job, Phase, running, connecting, waiting, finished, Queue, signal, post, join_postthread, rest,
  greet, empty_queue, step_at, postthread, Step, posts, joins, wakes, runs, Reached, starts, steps,
}

-- What each place of the thread tells of the queue.
abbrev pub IsRested : Phase → List Job → Bool → Type 0
IsRested running jobs done = Unit
IsRested connecting jobs done = jobs ≢ []
IsRested waiting jobs done = (jobs ≡ []) × (done ≡ false)
IsRested finished jobs done = (jobs ≡ []) × (done ≡ true)

pub record IsOrdered (q : Queue) (posted : List Job) : Type 0 where
  pub order : q.handled ++ q.jobs ≡ posted
  pub rested : IsRested q.phase q.jobs q.done

rest-IsRested : (done : Bool) → IsRested (rest done) [] done
unfolding rest
rest-IsRested true = (refl, refl)
rest-IsRested false = (refl, refl)

post-IsRested :
    (p : Phase) (jobs : List Job) (j : Job) (done : Bool)
    → done ≡ false
    → IsRested p jobs done
    → IsRested (signal p) (jobs ++ j ∷ []) done
unfolding signal
post-IsRested running jobs j done h r = tt
post-IsRested connecting [] j done h r = absurd (r refl)
post-IsRested connecting (k ∷ jobs) j done h r = cc
post-IsRested waiting jobs j done h r = tt
post-IsRested finished jobs j done h r = cc (h, r.1)

join-IsRested :
    (p : Phase) (jobs : List Job) (done : Bool)
    → IsRested p jobs done
    → IsRested (signal p) jobs true
unfolding signal
join-IsRested running jobs done r = tt
join-IsRested connecting jobs done r = r
join-IsRested waiting jobs done r = tt
join-IsRested finished jobs done r = (r.0, refl)

module _ (nntpauth : Option Bytes) (helper : List Bytes → Option (List Bytes × Bytes)) where
  empty_queue-IsOrdered :
      (q r : Queue) (s : Session) (posted : List Job)
      → q.handled ++ q.jobs ≡ posted
      → empty_queue nntpauth helper q s ≡ ok r
      → IsOrdered r posted
  unfolding empty_queue
  empty_queue-IsOrdered q r s posted order h =
      let (t, drained, returns) = >>=-eq-ok (drain nntpauth helper q.jobs s) _ h in
      transport_ok (λ r. IsOrdered r posted)
        (record { order = append-nil (q.handled ++ q.jobs) ∙ order; rested = rest-IsRested q.done })
        returns

  step_at-IsOrdered :
      (q r : Queue) (posted : List Job) (p : Phase) (js : List Job) (c : Bool)
      → q.phase ≡ p
      → q.jobs ≡ js
      → IsOrdered q posted
      → step_at nntpauth helper q p js c ≡ ok r
      → IsOrdered r posted
  unfolding step_at
  step_at-IsOrdered q r posted running [] c place none_left i h =
      transport_ok (λ r. IsOrdered r posted)
        (record { order = i.order; rested = rw none_left (rest-IsRested q.done) }) h
  step_at-IsOrdered q r posted running (j ∷ js) true place some_left i h =
      empty_queue-IsOrdered q r q.session posted i.order h
  step_at-IsOrdered q r posted running (j ∷ js) false place some_left i h =
      transport_ok (λ r. IsOrdered r posted) (record { order = i.order; rested = cc some_left }) h
  step_at-IsOrdered q r posted connecting js c place left i h =
      let (s, greeted, h') = >>=-eq-ok (greet q.session) _ h in
      empty_queue-IsOrdered q r s posted i.order h'
  step_at-IsOrdered q r posted waiting js c place left i h =
      transport_ok (λ r. IsOrdered r posted) i h
  step_at-IsOrdered q r posted finished js c place left i h =
      transport_ok (λ r. IsOrdered r posted) i h

  Step-IsOrdered :
      {q r : Queue} {ks : List Job} (posted : List Job)
      → Step nntpauth helper q r ks
      → IsOrdered q posted
      → IsOrdered r (posted ++ ks)
  Step-IsOrdered posted (posts q j early) i = record {
    order =
        unfold post in
        sym (append_assoc q.handled q.jobs (j ∷ [])) ∙ ap (λ js. js ++ j ∷ []) i.order;
    rested = unfold post in post-IsRested q.phase q.jobs j q.done early i.rested;
  }
  Step-IsOrdered posted (joins q) i = record {
    order = unfold join_postthread in i.order ∙ sym (append-nil posted);
    rested = unfold join_postthread in join-IsRested q.phase q.jobs q.done i.rested;
  }
  Step-IsOrdered posted (wakes q place) i = record {
    order = i.order ∙ sym (append-nil posted);
    rested = tt;
  }
  Step-IsOrdered posted (runs q r h) i =
      rw (append-nil posted)
        (unfold postthread in step_at-IsOrdered q r posted q.phase q.jobs q.connected refl refl i h)

  -- However the threads interleave, the jobs that have been handled, in order, and those in the queue
  -- are together the jobs that have been posted, in order: none is lost, doubled or overtaken. The
  -- posting thread waits only on an empty queue that is not done, and leaves only an empty one.
  pub Reached-IsOrdered :
      (start : Session) {q : Queue} {posted : List Job}
      → Reached nntpauth helper start q posted
      → IsOrdered q posted
  Reached-IsOrdered start starts = record { order = refl; rested = tt }
  Reached-IsOrdered start (steps q r js ks run step) =
      Step-IsOrdered js step (Reached-IsOrdered start run)

  -- In every run, when the posting thread has left its loop it has handled exactly the posted jobs, in
  -- order.
  pub finished-handled :
      (start : Session) {q : Queue} {posted : List Job}
      → Reached nntpauth helper start q posted
      → q.phase ≡ finished
      → q.handled ≡ posted
  finished-handled start {q} run place =
      let i = Reached-IsOrdered start run in
      let left = subst (λ p. IsRested p q.jobs q.done) place i.rested in
      sym (append-nil q.handled) ∙ (ap (λ js. q.handled ++ js) (sym left.0) ∙ i.order)
