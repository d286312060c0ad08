-- ===== src/Nntp/Session/Tests.antt =====
-- The theorems on the conversation at concrete inputs.
use nntp_tools.Prelude.{
  ◌+◌, ◌≡◌, ◌≢◌, refl, true, [], ◌∷◌, ◌++◌, none, some, Option, List, Bytes, codes, ok, failed, inr,
  arith,
}
use nntp_tools.Text.{c_string, cut_last, has_substring, starts_with}
use nntp_tools.Nntp.Response.{crlf, parse_response, strip_crlf, status_code, out_of_fuel}
use nntp_tools.Nntp.Wire.{wire}
use nntp_tools.Nntp.Session.{stat_command, post_command, pts_stat, drain}
use nntp_tools.Nntp.Session.Fuel.{OnlyReads, drain-Runs}
use nntp_tools.Nntp.Session.Retries.{auth_command, answered, asked, pts_stat-Asked}
use nntp_tools.Nntp.Session.Transcript.{Served, idle, known, refused, session, drain-Served}

-- A helper that reads one line and writes nothing.
abbrev helper : List Bytes → Option (List Bytes × Bytes)
helper [] = none
helper (l ∷ ls) = some (ls, [])

helper-OnlyReads : OnlyReads (some (codes "auth")) helper
helper-OnlyReads [] rest sent h = cc h
helper-OnlyReads (l ∷ ls) rest sent h = ground (arith, h)

abbrev line : Bytes → Bytes
line text = text ++ crlf

abbrev article : Bytes
article = codes "text"

-- The server asks for authentication until its lines end.
drain-Runs_test :
    drain (some (codes "auth")) helper ((codes "<a>", article) ∷ []) (
      session
        (line (codes "480 auth") ∷ line (codes "281 ok") ∷ line (codes "480 auth") ∷ [])
        true
        []
        0
        [])
    ≢ failed out_of_fuel
drain-Runs_test =
    drain-Runs (some (codes "auth")) helper ((codes "<a>", article) ∷ [])
      (session (line (codes "480 auth") ∷ line (codes "281 ok") ∷ line (codes "480 auth") ∷ []) true
        [] 0 [])
      helper-OnlyReads

pts_stat-Asked_example :
    pts_stat (some (codes "auth")) helper (1 + 1) (codes "<a>") (
      session
        (line (codes "480 auth") ∷ line (codes "281 ok") ∷ line (codes "223 0 <a>") ∷ [])
        true
        []
        0
        [])
    ≡ pts_stat (some (codes "auth")) helper 1 (codes "<a>") (
        session
          (line (codes "223 0 <a>") ∷ [])
          true
          ([] ++ (stat_command (codes "<a>") ++ (auth_command (codes "auth") ++ ([] ++ []))))
          0
          [])
unfolding parse_response strip_crlf status_code c_string cut_last
pts_stat-Asked_example =
    pts_stat-Asked helper (codes "auth") (codes "<a>") 1 true [] 0 []
      (asked {text = codes "480 auth"} refl refl answered)

abbrev jobs : List (Bytes × Bytes)
jobs = (codes "<a>", article) ∷ (codes "<b>", article) ∷ []

abbrev replies : List Bytes
replies =
    line (codes "430 no")
    ∷ line (codes "340 go")
    ∷ line (codes "441 no")
    ∷ line (codes "223 0 <b>")
    ∷ []

jobs-Served :
    Served jobs replies
      (stat_command (codes "<a>")
        ++ (post_command ++ (wire article ++ (stat_command (codes "<b>") ++ []))))
      1
unfolding parse_response strip_crlf status_code c_string cut_last has_substring starts_with
jobs-Served =
    refused {text = codes "430 no"} {text' = codes "340 go"} {text'' = codes "441 no"} (inr refl)
      refl refl refl refl (known {text = codes "223 0 <b>"} refl idle)

drain-Served_example :
    drain none helper jobs (session (replies ++ []) true [] 0 [])
    ≡ ok (
        session [] true
          ([]
            ++ (stat_command (codes "<a>")
                ++ (post_command ++ (wire article ++ (stat_command (codes "<b>") ++ [])))))
          1
          [])
drain-Served_example = drain-Served none helper true [] [] 0 [] jobs-Served
