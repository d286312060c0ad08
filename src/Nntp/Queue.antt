-- ===== src/Nntp/Queue.antt =====
-- The queue of lib/nntp.c between the threads that call `post` and the posting thread. A step is what
-- a thread does from one taking of the lock to the next release, and the thread's stay in
-- `pthread_cond_wait`, which may also end with no signal.
pub mod Order
pub mod Join
mod Tests
use nntp_tools.Prelude.{
  ℕ, ◌≡◌, Bool, true, false, List, [], ◌∷◌, ◌++◌, Option, Bytes, codes, if◌then◌else◌, Result, ok,
  failed, ◌>>=◌,
}
use nntp_tools.Nntp.Response.{Fault, crlf}
use nntp_tools.Nntp.Session.{Session, write, pts_banner, drain}

-- A message id and an article: `struct postjob`.
abbrev pub Job : Type 0
Job = Bytes × Bytes

-- Where the posting thread is: on its way to the test of its loop, between the release of the lock
-- for connecting and its taking, in `pthread_cond_wait`, or behind the loop.
pub data Phase : Type 0 where
  running connecting waiting finished : Phase

-- `postjobs`, `postdone`, the thread's place, whether `fd` is open, and the connection; `handled` are
-- the jobs that have been taken off the queue, in order.
pub record Queue : Type 0 where
  pub jobs : List Job
  pub done : Bool
  pub phase : Phase
  pub connected : Bool
  pub session : Session
  pub handled : List Job

-- `pthread_cond_signal`.
unfoldable pub signal : Phase → Phase
signal waiting = running
signal p = p

-- `post`.
unfoldable pub post : Job → Queue → Queue
unfolding signal
post j q = record q { jobs = q.jobs ++ j ∷ []; phase = signal q.phase }

-- `join_postthread`, up to `pthread_join`.
unfoldable pub join_postthread : Queue → Queue
unfolding signal
join_postthread q = record q { done = true; phase = signal q.phase }

-- The thread leaves its loop or waits.
unfoldable pub rest : Bool → Phase
rest done = if done then finished else waiting

-- The session when the connection is up: the banner, MODE READER and its banner.
unfoldable pub greet : Session → Result Fault Session
greet s = pts_banner s >>= λ t. pts_banner (write (codes "MODE READER" ++ crlf) t)

module _ (nntpauth : Option Bytes) (helper : List Bytes → Option (List Bytes × Bytes)) where
  -- The loop over the queue, and what the thread does behind it.
  unfoldable pub empty_queue : Queue → Session → Result Fault Queue
  empty_queue q s = drain nntpauth helper q.jobs s >>= λ t. ok (record q {
    jobs = [];
    phase = rest q.done;
    connected = true;
    session = t;
    handled = q.handled ++ q.jobs;
  })

  -- The thread's step at a place, with the queue and whether it is connected; it has none while it
  -- waits or when it has left.
  unfoldable pub step_at : Queue → Phase → List Job → Bool → Result Fault Queue
  step_at q running [] connected = ok (record q { phase = rest q.done })
  step_at q running (j ∷ js) true = empty_queue q q.session
  step_at q running (j ∷ js) false = ok (record q { phase = connecting })
  step_at q connecting js connected = greet q.session >>= empty_queue q
  step_at q waiting js connected = ok q
  step_at q finished js connected = ok q

  unfoldable pub postthread : Queue → Result Fault Queue
  postthread q = step_at q q.phase q.jobs q.connected

  -- The steps of all threads. `post` is called before `join_postthread`, by the same thread.
  pub data Step : Queue → Queue → List Job → Type 0 where
    posts : (q : Queue) (j : Job) → q.done ≡ false → Step q (post j q) (j ∷ [])
    joins : (q : Queue) → Step q (join_postthread q) []
    wakes : (q : Queue) → q.phase ≡ waiting → Step q (record q { phase = running }) []
    runs : (q r : Queue) → postthread q ≡ ok r → Step q r []

  -- A run from the start of the thread, with the jobs that have been posted.
  pub data Reached (start : Session) : Queue → List Job → Type 0 where
    starts :
        Reached start
          (record {
            jobs = [];
            done = false;
            phase = running;
            connected = false;
            session = start;
            handled = [];
          })
          []
    steps :
        (q r : Queue) (js ks : List Job)
        → Reached start q js
        → Step q r ks
        → Reached start r (js ++ ks)
