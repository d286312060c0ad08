-- ===== src/Nntp/Session.antt =====
-- The conversation of lib/nntp.c with the news server: STAT, POST, authentication and the banners.
pub mod Fuel
pub mod Transcript
pub mod Retries
mod Tests
use nntp_tools.Prelude.{
  ℕ, zero, suc, ◌+◌, Bool, true, false, not, ◌&&◌, ◌||◌, List, [], ◌∷◌, ◌++◌, Option, none, some,
  Bytes, codes, length, ◌==◌, if◌then◌else◌, Result, ok, failed, ◌>>=◌,
}
use nntp_tools.Text.{has_substring}
use nntp_tools.Nntp.Response.{
  Fault, read_error, end_of_file, not_postable, bad_banner, auth_failed, out_of_fuel,
  parse_response, crlf,
}
use nntp_tools.Nntp.Wire.{wire}

-- `struct postthreadstate` and its connection: the lines that `io_getline` will read and whether
-- the end of the file or an error comes behind them, what has been written, and the lines that `error` has reported.
-- Of a server that goes on for ever, `input` has the lines as far as the conversation is followed.
-- The count of unwanted articles is an `int` that is taken not to overflow.
pub record Session : Type 0 where
  pub input : List Bytes
  pub closed : Bool
  pub output : Bytes
  pub unwanted : ℕ
  pub reports : List Bytes

-- `pts_write` and `pts_putc`.
unfoldable pub write : Bytes → Session → Session
write text s = record s { output = s.output ++ text }

-- `io_getline` as `pts_response` calls it: the line, and the lines behind it.
unfoldable pub getline : Bool → List Bytes → Result Fault (Bytes × List Bytes)
getline closed [] = failed (if closed then end_of_file else read_error)
getline closed (l ∷ ls) = ok (l, ls)

-- `pts_response`, with the line it leaves in `line`.
unfoldable pub pts_response : Session → Result Fault (ℕ × Bytes × Session)
unfolding getline
pts_response s = getline s.closed s.input >>= λ (l, ls).
    parse_response l >>= λ (r, line). ok (r, line, record s { input = ls })

-- `pts_banner`.
unfoldable pub pts_banner : Session → Result Fault Session
pts_banner s = pts_response s >>= λ (r, line, t). if r == 200 then ok t else failed bad_banner

-- `error(0, ...)`.
unfoldable pub report : Bytes → Session → Session
report line s = record s { reports = s.reports ++ line ∷ [] }

-- What the final response to an article does.
unfoldable pub outcome : ℕ → Bytes → Session → Session
outcome r line s =
    if r == 441
    then (if not (has_substring line (codes "441 437"))
          || not (has_substring line (codes "441 435"))
        then record s { unwanted = s.unwanted + 1 }
        else report line s)
    else s

abbrev pub stat_command : Bytes → Bytes
stat_command msgid = codes "STAT " ++ (msgid ++ crlf)

abbrev pub post_command : Bytes
post_command = codes "POST" ++ crlf

-- `nntpauth` is the environment variable NNTPAUTH. `helper` is the process that it names: from the
-- lines that the server has still to send, the lines it leaves and the bytes it writes, or `none`
-- if it exits with a status other than 0.
module _ (nntpauth : Option Bytes) (helper : List Bytes → Option (List Bytes × Bytes)) where
  -- `pts_auth`.
  unfoldable pub pts_auth : Session → Result Fault Session
  pts_auth s = elim nntpauth [
    | none ↦ failed auth_failed
    | some a ↦ elim (helper s.input) [
      | none ↦ failed auth_failed
      | some (rest, sent) ↦ ok (record s {
        input = rest;
        output = s.output ++ (codes "AUTHINFO GENERIC " ++ a ++ crlf) ++ sent;
      })
    ]
  ]

  -- `pts_stat`; one unit of fuel for each call.
  unfoldable pub pts_stat : ℕ → Bytes → Session → Result Fault (ℕ × Session)
  pts_stat zero msgid s = failed out_of_fuel
  pts_stat (suc fuel) msgid s = pts_response (write (stat_command msgid) s) >>= λ (r, line, t).
      elim (r == 480) [
        | true ↦ pts_auth t >>= λ u. pts_stat fuel msgid u
        | false ↦ ok (r, if r == 223 || r == 423 || r == 430 then t else report line t)
      ]

  -- The response behind an article; `again` is the call of `pts_post` behind an authentication.
  unfoldable pub finish :
      (Session → Result Fault Session) → ℕ × Bytes × Session → Result Fault Session
  finish again (r, line, s) = elim (r == 480) [
    | true ↦ pts_auth s >>= again
    | false ↦ ok (outcome r line s)
  ]

  -- The response to POST.
  unfoldable pub send :
      (Session → Result Fault Session) → Bytes → ℕ × Bytes × Session → Result Fault Session
  send again article (r, line, s) = elim (r == 480) [
    | true ↦ pts_auth s >>= again
    | false ↦ elim (r == 340) [
      | false ↦ failed not_postable
      | true ↦ pts_response (write (wire article) s) >>= finish again
    ]
  ]

  -- `pts_post`; one unit of fuel for each call.
  unfoldable pub pts_post : ℕ → Bytes → Session → Result Fault Session
  pts_post zero article s = failed out_of_fuel
  pts_post (suc fuel) article s =
      pts_response (write post_command s) >>= send (λ u. pts_post fuel article u) article

  -- Each call reads a line, so one for each line and one more are enough.
  abbrev pub calls : Session → ℕ
  calls s = suc (length s.input)

  -- The post behind a STAT.
  unfoldable pub post_missing : Bytes → ℕ × Session → Result Fault Session
  post_missing article (r, t) = elim (r == 223) [
    | true ↦ ok t
    | false ↦ pts_post (calls t) article t
  ]

  -- One job, a message id and an article: the body of the loop over the queue.
  unfoldable pub handle_job : Bytes × Bytes → Session → Result Fault Session
  handle_job (msgid, article) s = pts_stat (calls s) msgid s >>= post_missing article

  -- The loop over the queue.
  unfoldable pub drain : List (Bytes × Bytes) → Session → Result Fault Session
  drain [] s = ok s
  drain (j ∷ js) s = handle_job j s >>= drain js
