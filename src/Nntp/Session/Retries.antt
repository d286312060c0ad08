-- ===== src/Nntp/Session/Retries.antt =====
-- `pts_stat` of lib/nntp.c while the server asks for authentication.
use nntp_tools.Prelude.{
  ℕ, zero, suc, ◌+◌, ◌≡◌, refl, sym, ap, ◌∙◌, Bool, List, [], ◌∷◌, ◌++◌, append_assoc, append-nil,
  Option, some, Bytes, codes, ok, arith,
}
use nntp_tools.Nntp.Response.{parse_response, crlf}
use nntp_tools.Nntp.Session.{write, stat_command, pts_auth, pts_stat}
use nntp_tools.Nntp.Session.Transcript.{session, pts_response-line}

-- The line in front of what the helper writes.
abbrev pub auth_command : Bytes → Bytes
auth_command a = codes "AUTHINFO GENERIC " ++ a ++ crlf

-- From the lines `ls` on the server answers a STAT with 480 a number of times, and each time the helper
-- exits well; `rest` is what is left to read then, and `out` is what has been written.
pub data Asked (helper : List Bytes → Option (List Bytes × Bytes)) (a msgid : Bytes)
    : ℕ → List Bytes → List Bytes → Bytes → Type 0 where
  answered : {rest : List Bytes} → Asked helper a msgid zero rest rest []
  asked :
      {k : ℕ} {l text sent out : Bytes} {ls later rest : List Bytes}
      → parse_response l ≡ ok (480, text)
      → helper ls ≡ some (later, sent)
      → Asked helper a msgid k later rest out
      → Asked helper a msgid
          (suc k)
          (l ∷ ls)
          rest
          (stat_command msgid ++ (auth_command a ++ (sent ++ out)))

append_three : (s a b c out : Bytes) → ((s ++ a) ++ b ++ c) ++ out ≡ s ++ (a ++ (b ++ (c ++ out)))
append_three s a b c out =
    append_assoc (s ++ a ++ b) c out
    ∙ (append_assoc (s ++ a) b (c ++ out) ∙ append_assoc s a (b ++ (c ++ out)))

module _ (helper : List Bytes → Option (List Bytes × Bytes)) (a msgid : Bytes) where
  pts_auth-helped :
      (ls later : List Bytes) (closed : Bool) (sent before : Bytes) (n : ℕ) (reports : List Bytes)
      → helper ls ≡ some (later, sent)
      → pts_auth (some a) helper (session ls closed before n reports)
        ≡ ok (session later closed (before ++ auth_command a ++ sent) n reports)
  unfolding pts_auth
  pts_auth-helped ls later closed sent before n reports h = rw (h, pts_auth) refl

  pts_stat-round :
      (fuel : ℕ) (l text sent : Bytes) (ls later : List Bytes) (closed : Bool) (before : Bytes)
      (n : ℕ) (reports : List Bytes)
      → parse_response l ≡ ok (480, text)
      → helper ls ≡ some (later, sent)
      → pts_stat (some a) helper (suc fuel) msgid (session (l ∷ ls) closed before n reports)
        ≡ pts_stat (some a) helper fuel msgid (
            session later closed
              ((before ++ stat_command msgid) ++ auth_command a ++ sent)
              n
              reports)
  unfolding pts_stat write
  pts_stat-round fuel l text sent ls later closed before n reports r h =
      rw
        (
          pts_response-line l ls closed (before ++ stat_command msgid) n reports r,
          pts_auth-helped ls later closed sent (before ++ stat_command msgid) n reports h,
        )
        refl

  -- As often as the server answers 480, for any number of times, `pts_stat` sends AUTHINFO GENERIC and what
  -- the helper writes and then asks again, one round for each; behind the last of these answers it goes on
  -- as a call does with what is left to read.
  pub pts_stat-Asked :
      {k : ℕ} {ls rest : List Bytes} {out : Bytes} (fuel : ℕ) (closed : Bool) (before : Bytes)
      (n : ℕ) (reports : List Bytes)
      → Asked helper a msgid k ls rest out
      → pts_stat (some a) helper (k + fuel) msgid (session ls closed before n reports)
        ≡ pts_stat (some a) helper fuel msgid (session rest closed (before ++ out) n reports)
  pts_stat-Asked {ls} fuel closed before n reports answered =
      ap (λ m. pts_stat (some a) helper m msgid (session ls closed before n reports)) (omega arith)
      ∙ ap (λ s. pts_stat (some a) helper fuel msgid (session ls closed s n reports))
          (sym (append-nil before))
  pts_stat-Asked fuel closed before n reports
        (asked {k} {l} {text} {sent} {out} {ls} {later} {rest} r h more) =
      ap (λ m. pts_stat (some a) helper m msgid (session (l ∷ ls) closed before n reports))
        (omega arith)
      ∙ (pts_stat-round (k + fuel) l text sent ls later closed before n reports r h
          ∙ (pts_stat-Asked fuel closed ((before ++ stat_command msgid) ++ auth_command a ++ sent) n
                reports more
              ∙ ap (λ s. pts_stat (some a) helper fuel msgid (session rest closed s n reports))
                  (append_three before (stat_command msgid) (auth_command a) sent out)))
