-- ===== src/Nntp/Session/Transcript.antt =====
-- What the poster sends for a queue of jobs to a server that asks for no authentication.
use mathlib.Core.Path.{Path, ap₂}
use nntp_tools.Prelude.{
  ℕ, suc, ◌+◌, ◌≡◌, ◌≢◌, ◌⊎◌, refl, sym, ap, ◌∙◌, Bool, false, List, [], ◌∷◌, ◌++◌, append_assoc,
  append-nil, Option, Bytes, codes, length, ◌==◌, Result, ok, ◌>>=◌, inl, arith,
}
use nntp_tools.Text.{has_substring}
use nntp_tools.Nntp.Response.{Fault, parse_response}
use nntp_tools.Nntp.Wire.{wire}
use nntp_tools.Nntp.Session.{
  Session, write, getline, outcome, pts_response, stat_command, post_command, pts_stat, finish,
  send, pts_post, post_missing, calls, handle_job, drain,
}

-- The server says of an article that it has it, that it does not, or after it has been sent that it
-- took it or that it did not want it.
pub data Served : List (Bytes × Bytes) → List Bytes → Bytes → ℕ → Type 0 where
  idle : Served [] [] [] 0
  known :
      {msgid article l text out : Bytes} {js : List (Bytes × Bytes)} {ls : List Bytes} {n : ℕ}
      → parse_response l ≡ ok (223, text)
      → Served js ls out n
      → Served ((msgid, article) ∷ js) (l ∷ ls) (stat_command msgid ++ out) n
  accepted :
      {msgid article l l' l'' text text' text'' out : Bytes} {r : ℕ} {js : List (Bytes × Bytes)}
      {ls : List Bytes} {n : ℕ}
      → (r ≡ 423) ⊎ (r ≡ 430)
      → parse_response l ≡ ok (r, text)
      → parse_response l' ≡ ok (340, text')
      → parse_response l'' ≡ ok (240, text'')
      → Served js ls out n
      → Served
          ((msgid, article) ∷ js)
          (l ∷ l' ∷ l'' ∷ ls)
          (stat_command msgid ++ (post_command ++ (wire article ++ out)))
          n
  refused :
      {msgid article l l' l'' text text' text'' out : Bytes} {r : ℕ} {js : List (Bytes × Bytes)}
      {ls : List Bytes} {n : ℕ}
      → (r ≡ 423) ⊎ (r ≡ 430)
      → parse_response l ≡ ok (r, text)
      → parse_response l' ≡ ok (340, text')
      → parse_response l'' ≡ ok (441, text'')
      → has_substring text'' (codes "441 437") ≡ false
      → Served js ls out n
      → Served
          ((msgid, article) ∷ js)
          (l ∷ l' ∷ l'' ∷ ls)
          (stat_command msgid ++ (post_command ++ (wire article ++ out)))
          (suc n)

append_four : (s a b c out : Bytes) → s ++ a ++ b ++ c ++ out ≡ s ++ (a ++ (b ++ (c ++ out)))
append_four s a b c out =
    append_assoc (s ++ a ++ b) c out
    ∙ (append_assoc (s ++ a) b (c ++ out) ∙ append_assoc s a (b ++ (c ++ out)))

abbrev pub session : List Bytes → Bool → Bytes → ℕ → List Bytes → Session
session ls closed out n reports = record {
  input = ls;
  closed = closed;
  output = out;
  unwanted = n;
  reports = reports;
}

pub pts_response-line :
    (l : Bytes) (ls : List Bytes) (closed : Bool) (out : Bytes) (n : ℕ) (reports : List Bytes)
    {r : ℕ} {text : Bytes}
    → parse_response l ≡ ok (r, text)
    → pts_response (session (l ∷ ls) closed out n reports)
      ≡ ok (r, text, session ls closed out n reports)
unfolding pts_response getline
pts_response-line l ls closed out n reports h = rw h refl

module _ (nntpauth : Option Bytes) (helper : List Bytes → Option (List Bytes × Bytes))
    (closed : Bool) (reports : List Bytes) where
  pts_stat-line :
      (fuel r n : ℕ) (msgid l text out : Bytes) (ls : List Bytes)
      → (r ≡ 223) ⊎ (r ≡ 423) ⊎ (r ≡ 430)
      → parse_response l ≡ ok (r, text)
      → pts_stat nntpauth helper (suc fuel) msgid (session (l ∷ ls) closed out n reports)
        ≡ ok (r, session ls closed (out ++ stat_command msgid) n reports)
  unfolding pts_stat write
  pts_stat-line fuel r n msgid l text out ls h reply =
      rw (pts_response-line l ls closed (out ++ stat_command msgid) n reports reply) (ground arith)

  finish-final :
      (again : Session → Result Fault Session) (r : ℕ) (line : Bytes) (s : Session)
      → r ≢ 480
      → finish nntpauth helper again (r, line, s) ≡ ok (outcome r line s)
  unfolding finish
  finish-final again r line s h =
      let other : (r == 480) ≡ false = ground arith in rw (other, finish) refl

  send-ready :
      (again : Session → Result Fault Session) (article line : Bytes) (s : Session)
      → send nntpauth helper again article (340, line, s)
        ≡ (pts_response (write (wire article) s) >>= finish nntpauth helper again)
  unfolding send
  send-ready again article line s = refl

  -- An article that is sent at once; `m` counts what the last response adds to the unwanted ones.
  pts_post-lines :
      (fuel n m r : ℕ) (article l l' text text' out : Bytes) (ls : List Bytes)
      → parse_response l ≡ ok (340, text)
      → parse_response l' ≡ ok (r, text')
      → r ≢ 480
      → ((s : Session) → outcome r text' s ≡ record s { unwanted = m + s.unwanted })
      → pts_post nntpauth helper (suc fuel) article (session (l ∷ l' ∷ ls) closed out n reports)
        ≡ ok (session ls closed (out ++ post_command ++ wire article) (m + n) reports)
  unfolding pts_post write
  pts_post-lines fuel n m r article l l' text text' out ls first second final adds =
      rw (pts_response-line l (l' ∷ ls) closed (out ++ post_command) n reports first) (
        send-ready _ article text _
        ∙ (ap
              (λ reply.
                reply >>= finish nntpauth helper (λ u. pts_post nntpauth helper fuel article u))
              (pts_response-line l' ls closed (out ++ post_command ++ wire article) n reports
                second)
            ∙ (finish-final _ r text' _ final ∙ ap (λ s. ok s) (adds _))))

  outcome-accepted :
      (text : Bytes) (s : Session) → outcome 240 text s ≡ record s { unwanted = 0 + s.unwanted }
  unfolding outcome
  outcome-accepted text s = ap (λ k. record s { unwanted = k }) (omega arith)

  outcome-refused :
      (text : Bytes) (s : Session)
      → has_substring text (codes "441 437") ≡ false
      → outcome 441 text s ≡ record s { unwanted = 1 + s.unwanted }
  unfolding outcome
  outcome-refused text s h = rw h (ap (λ k. record s { unwanted = k }) (omega arith))

  post_missing-absent :
      (r : ℕ) (article : Bytes) (s : Session)
      → (r ≡ 423) ⊎ (r ≡ 430)
      → post_missing nntpauth helper article (r, s)
        ≡ pts_post nntpauth helper (calls nntpauth helper s) article s
  unfolding post_missing
  post_missing-absent r article s h =
      let missing : (r == 223) ≡ false = ground (arith, h) in rw (missing, post_missing) refl

  pub handle_job-sent :
      (n m r r' : ℕ) (msgid article l l' l'' text text' text'' out : Bytes) (ls : List Bytes)
      → (r ≡ 423) ⊎ (r ≡ 430)
      → parse_response l ≡ ok (r, text)
      → parse_response l' ≡ ok (340, text')
      → parse_response l'' ≡ ok (r', text'')
      → r' ≢ 480
      → ((s : Session) → outcome r' text'' s ≡ record s { unwanted = m + s.unwanted })
      → handle_job nntpauth helper
          (msgid, article)
          (session (l ∷ l' ∷ l'' ∷ ls) closed out n reports)
        ≡ ok (
            session ls closed
              (out ++ stat_command msgid ++ post_command ++ wire article)
              (m + n)
              reports)
  unfolding handle_job
  handle_job-sent n m r r' msgid article l l' l'' text text' text'' out ls absent a b c final adds =
      ap (λ reply. reply >>= post_missing nntpauth helper article)
        (pts_stat-line (suc (length (l' ∷ l'' ∷ ls))) r n msgid l text out (l' ∷ l'' ∷ ls)
          (ground (arith, absent)) a)
      ∙ (post_missing-absent r article _ absent
          ∙ pts_post-lines (suc (length (l'' ∷ ls))) n m r' article l' l'' text' text''
              (out ++ stat_command msgid) ls b c final adds)

  handle_job-known :
      (n : ℕ) (msgid article l text out : Bytes) (ls : List Bytes)
      → parse_response l ≡ ok (223, text)
      → handle_job nntpauth helper (msgid, article) (session (l ∷ ls) closed out n reports)
        ≡ ok (session ls closed (out ++ stat_command msgid) n reports)
  unfolding handle_job
  handle_job-known n msgid article l text out ls a =
      ap (λ reply. reply >>= post_missing nntpauth helper article)
        (pts_stat-line (suc (length ls)) 223 n msgid l text out ls (inl refl) a)
      ∙ (unfold post_missing in refl)

  same_session :
      (more : List Bytes) {out out' : Bytes} {n n' : ℕ}
      → out ≡ out'
      → n ≡ n'
      → Path
          (Result Fault Session)
          (ok (session more closed out n reports))
          (ok (session more closed out' n' reports))
  same_session more h k = ap₂ (λ o m. ok (session more closed o m reports)) h k

  -- Where the server answers each STAT with 223, or with 423 or 430 and then POST with 340 and the
  -- article with 240, or with 441 and a line that lacks "441 437", the loop over the queue returns. It
  -- has sent, for each job in order, the STAT and, exactly if the answer was not 223, the POST and the
  -- dot-stuffed article; it leaves the lines behind the answers, and adds the 441 answers to the count
  -- of unwanted articles.
  pub drain-Served :
      {js : List (Bytes × Bytes)} {ls : List Bytes} {out : Bytes} {n : ℕ} (sent : Bytes) (count : ℕ)
      (more : List Bytes)
      → Served js ls out n
      → drain nntpauth helper js (session (ls ++ more) closed sent count reports)
        ≡ ok (session more closed (sent ++ out) (n + count) reports)
  unfolding drain
  drain-Served sent count more idle = same_session more (sym (append-nil sent)) (omega arith)
  drain-Served sent count more (known {msgid = id} {out = out} {js = js} a served) =
      ap (λ r. r >>= drain nntpauth helper js) (handle_job-known count id _ _ _ sent _ a)
      ∙ (drain-Served (sent ++ stat_command id) count more served
          ∙ same_session more (append_assoc sent (stat_command id) out) refl)
  drain-Served sent count more
        (accepted {msgid = id} {article = article} {out = out} {js = js} absent a b c served) =
      ap (λ r. r >>= drain nntpauth helper js)
        (handle_job-sent count 0 _ 240 id article _ _ _ _ _ _ sent _ absent a b c (omega arith)
          (outcome-accepted _))
      ∙ (drain-Served _ (0 + count) more served
          ∙ same_session more (append_four sent (stat_command id) post_command (wire article) out)
              (omega arith))
  drain-Served sent count more
        (refused {msgid = id} {article = article} {out = out} {js = js} absent a b c wanted
          served) =
      ap (λ r. r >>= drain nntpauth helper js)
        (handle_job-sent count 1 _ 441 id article _ _ _ _ _ _ sent _ absent a b c (omega arith)
          (λ s. outcome-refused _ s wanted))
      ∙ (drain-Served _ (1 + count) more served
          ∙ same_session more (append_four sent (stat_command id) post_command (wire article) out)
              (omega arith))
