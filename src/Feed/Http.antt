-- ===== src/Feed/Http.antt =====
-- The fetcher of gateways/lj2news.c: the state that the response headers set and the way of the body.
-- curl's calls of `writeheader` and `writedata` are the events; `rc` is read without overflow.
use mathlib.Core.List.{map}
use nntp_tools.Prelude.{
  ℕ, ◌/◌, Bool, true, false, not, ◌&&◌, ◌||◌, List, [], ◌∷◌, ◌++◌, Option, none, some, Bytes, codes,
  take, drop, ◌==◌, if◌then◌else◌, Result, ok, failed, ◌>>=◌,
}
use nntp_tools.Prelude.Int.{ℤ, pos, negsuc}
use nntp_tools.Text.{c_string, to_lower, starts_with, has_substring}
use nntp_tools.Atoi.{atoi}

pub data HttpState : Type 0 where
  http_initial http_error http_final http_ok : HttpState

unfoldable pub set_http_state : HttpState → HttpState → HttpState
set_http_state http_error new = http_error
set_http_state http_ok new = http_ok
set_http_state http_initial new = new
set_http_state http_final new = new

-- The header without the CRs and LFs at its end.
unfoldable pub trim_eol : Bytes → Bytes
trim_eol [] = []
trim_eol (c ∷ s) = elim (trim_eol s) [
  | [] ↦ if c == 13 || c == 10 then [] else c ∷ []
  | d ∷ t ↦ c ∷ d ∷ t
]

-- The C string `header`.
unfoldable pub header_text : Bytes → Bytes
header_text line = c_string (trim_eol line)

-- From the first space on.
unfoldable pub from_space : Bytes → Bytes
from_space [] = []
from_space (c ∷ s) = if c == b' ' then c ∷ s else from_space s

-- `rc / 100`, where what is not positive is 0: the cases are 2 to 5.
unfoldable pub hundreds : ℤ → ℕ
hundreds (pos n) = n / 100
hundreds (negsuc n) = 0

-- The `switch` over the class of the status.
unfoldable pub status_step : HttpState → ℕ → HttpState
status_step s k =
    if k == 4 || k == 5
    then set_http_state s http_error
    else if k == 2
    then set_http_state s http_final
    else s

unfoldable pub is_status : Bytes → Bool
is_status header = starts_with header (codes "HTTP/")

unfoldable pub status_class : Bytes → ℕ
status_class header = hundreds (atoi (from_space header))

-- A content type that the parser is not for; case does not count.
unfoldable pub is_wrong_type : Bytes → Bool
is_wrong_type header =
    starts_with (map to_lower header) (codes "content-type:")
    && not (has_substring (map to_lower header) (codes "text/xml"))

unfoldable pub type_step : HttpState → Bytes → HttpState
type_step http_final header =
    if is_wrong_type header then set_http_state http_final http_error else http_final
type_step s header = s

-- The empty header ends the response.
unfoldable pub end_step : HttpState → Bytes → HttpState
end_step http_final [] = set_http_state http_final http_ok
end_step s header = s

unfoldable pub first_step : HttpState → Bytes → HttpState
first_step s header = if is_status header then status_step s (status_class header) else s

-- `writeheader`.
unfoldable pub write_header : HttpState → Bytes → HttpState
write_header s line =
    let header = header_text line in end_step (type_step (first_step s header) header) header

pub data Target : Type 0 where
  internal_pipe standard_error : Target

-- Where `writedata` writes; none: nowhere.
unfoldable pub target : HttpState → Option Target
target http_ok = some internal_pipe
target http_error = some standard_error
target http_initial = none
target http_final = none

-- What a call of `write` returned; `broken` is any error but EINTR.
pub data WriteResult : Type 0 where
  wrote : ℕ → WriteResult
  interrupted broken : WriteResult

pub data WriteFault : Type 0 where
  write_error no_result : WriteFault

-- The loop of `writedata`: what has been written, given what each call of `write` returns.
unfoldable pub write_all : List WriteResult → Bytes → Result WriteFault Bytes
write_all results [] = ok []
write_all [] (c ∷ s) = failed no_result
write_all (broken ∷ results) (c ∷ s) = failed write_error
write_all (interrupted ∷ results) (c ∷ s) = write_all results (c ∷ s)
write_all (wrote n ∷ results) (c ∷ s) =
    write_all results (drop n (c ∷ s)) >>= λ rest. ok (take n (c ∷ s) ++ rest)

pub data Event : Type 0 where
  header body : Bytes → Event

-- What the pipe to the parser gets of one call of `writedata`.
unfoldable pub piped : HttpState → Bytes → Bytes
piped s b = elim (target s) [ some internal_pipe ↦ b | _ ↦ [] ]

-- A transfer: the state at its end, and what went into the pipe.
unfoldable pub transfer : HttpState → List Event → HttpState × Bytes
transfer s [] = (s, [])
transfer s (header line ∷ events) = transfer (write_header s line) events
transfer s (body b ∷ events) = let (t, out) = transfer s events in (t, piped s b ++ out)

-- `main` waits until the state is one of these two.
unfoldable pub is_decided : HttpState → Bool
is_decided http_ok = true
is_decided http_error = true
is_decided http_initial = false
is_decided http_final = false
