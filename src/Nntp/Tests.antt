-- ===== src/Nntp/Tests.antt =====
-- Runs of the poster, and its theorems at concrete inputs.
use nntp_tools.Prelude.{◌≡◌, ◌↔◌, refl, ◌++◌, [], ◌∷◌, some, Bytes, codes, ok}
use nntp_tools.Text.{c_string, cut_last}
use nntp_tools.Nntp.Response.{
  crlf, strip_crlf, status_code, parse_response, IsStatus, parse_response_iff,
}
use nntp_tools.Nntp.Wire.{put, stuff, wire, receive, lines, receive-wire}

abbrev ready : Bytes
ready = codes "200 ready" ++ crlf

ready_code : parse_response ready ≡ ok (200, codes "200 ready")
unfolding parse_response strip_crlf status_code c_string cut_last
ready_code = refl

parse_response_iff_example :
    (parse_response ready ≡ ok (200, codes "200 ready"))
    ↔ ((c_string ready ≡ codes "200 ready" ++ crlf) × IsStatus 200 (codes "200 ready"))
parse_response_iff_example = parse_response_iff ready (codes "200 ready") 200

-- A line that is a dot, and a last line with no newline.
abbrev dots : Bytes
dots = b'.' ∷ 10 ∷ codes "a."

dots-wire : wire dots ≡ codes ".." ++ crlf ++ codes "a." ++ crlf ++ codes "." ++ crlf
unfolding wire stuff put c_string
dots-wire = refl

receive-wire_example :
    receive [] (wire dots ++ codes "QUIT") ≡ some (lines (c_string dots), codes "QUIT")
receive-wire_example = receive-wire dots (codes "QUIT")
