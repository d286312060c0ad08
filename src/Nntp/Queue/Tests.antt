-- ===== src/Nntp/Queue/Tests.antt =====
-- The theorems on the queue at one job that is posted while the thread is about to connect.
use nntp_tools.Prelude.{
  ◌≡◌, ◌≢◌, refl, true, false, [], ◌∷◌, ◌++◌, none, Option, List, Bytes, codes, ok,
}
use nntp_tools.Nntp.Response.{crlf, parse_response, strip_crlf, status_code}
use nntp_tools.Text.{c_string, cut_last}
use nntp_tools.Nntp.Session.{
  Session, getline, write, pts_response, pts_banner, stat_command, pts_stat, post_missing,
  handle_job, drain,
}
use nntp_tools.Nntp.Queue.{
  Job, connecting, waiting, finished, Queue, signal, post, join_postthread, rest, greet,
  empty_queue, step_at, postthread, posts, joins, runs, Reached, starts, steps,
}
use nntp_tools.Nntp.Queue.Order.{IsOrdered, Reached-IsOrdered, finished-handled}
use nntp_tools.Nntp.Queue.Join.{postthread-finished}

abbrev helper : List Bytes → Option (List Bytes × Bytes)
helper ls = none

abbrev line : Bytes → Bytes
line text = text ++ crlf

abbrev replies : List Bytes
replies = line (codes "200 hello") ∷ line (codes "200 reader") ∷ line (codes "223 0 <a>") ∷ []

abbrev start : Session
start = record { input = replies; closed = true; output = []; unwanted = 0; reports = [] }

abbrev job : Job
job = (codes "<a>", codes "text")

abbrev connecting_queue : Queue
connecting_queue = record {
  jobs = job ∷ [];
  done = true;
  phase = connecting;
  connected = false;
  session = start;
  handled = [];
}

-- The article is known, so only STAT is sent behind MODE READER.
abbrev finished_queue : Queue
finished_queue = record {
  jobs = [];
  done = true;
  phase = finished;
  connected = true;
  session = record {
    input = [];
    closed = true;
    output = line (codes "MODE READER") ++ stat_command (codes "<a>");
    unwanted = 0;
    reports = [];
  };
  handled = job ∷ [];
}

connecting-Reached : Reached none helper start connecting_queue (job ∷ [])
unfolding post signal join_postthread postthread step_at
connecting-Reached =
    steps _ _ (job ∷ []) []
      (steps _ _ (job ∷ []) [] (steps _ _ [] (job ∷ []) starts (posts _ job refl)) (runs _ _ refl))
      (joins _)

connecting_step : postthread none helper connecting_queue ≡ ok finished_queue
unfolding postthread step_at empty_queue greet pts_banner pts_response getline parse_response
    strip_crlf status_code c_string cut_last write rest drain handle_job pts_stat post_missing
connecting_step = refl

finished_step : postthread none helper finished_queue ≡ ok finished_queue
unfolding postthread step_at
finished_step = refl

finished-Reached : Reached none helper start finished_queue (job ∷ [])
finished-Reached = steps _ _ (job ∷ []) [] connecting-Reached (runs _ _ connecting_step)

Reached-IsOrdered_example : IsOrdered connecting_queue (job ∷ [])
Reached-IsOrdered_example = Reached-IsOrdered none helper start connecting-Reached

finished-handled_example : finished_queue.handled ≡ job ∷ []
finished-handled_example = finished-handled none helper start finished-Reached refl

postthread-finished_example : (connecting_queue.phase ≢ waiting) × (finished_queue.phase ≡ finished)
postthread-finished_example =
    postthread-finished none helper start connecting-Reached refl connecting_step finished_step
