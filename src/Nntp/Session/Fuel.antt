-- ===== src/Nntp/Session/Fuel.antt =====
-- The fuel of the calls that repeat behind authentication.
use nntp_tools.Prelude.{
  ℕ, zero, suc, ◌<◌, ◌≤◌, ◌≡◌, ◌≢◌, refl, Bool, true, false, List, [], ◌∷◌, Option, some, Bytes,
  length, ◌==◌, Result, ok, failed, inl, inr, Option-cases, >>=-eq-ok, >>=-ne-failed, arith,
}
use nntp_tools.Text.{cut_last}
use nntp_tools.Nntp.Response.{Fault, out_of_fuel, parse_response, strip_crlf, status_code}
use nntp_tools.Nntp.Wire.{wire}
use nntp_tools.Nntp.Session.{
  Session, getline, write, pts_response, stat_command, post_command, pts_auth, pts_stat, finish,
  send, pts_post, post_missing, calls, handle_job, drain,
}

abbrev Runs {ℓ} : {A : Type ℓ} → Result Fault A → Type ℓ
Runs r = r ≢ failed out_of_fuel

strip_crlf-Runs : (s : Bytes) → Runs (strip_crlf s)
unfolding strip_crlf
strip_crlf-Runs s h = elim (Option-cases (cut_last 13 s)) [
  | inl e ↦ ground (arith, e)
  | inr ((before, after), e) ↦ ground (arith, e)
]

status_code-Runs : (s : Bytes) → Runs (status_code s)
unfolding status_code
status_code-Runs s h = ground arith

parse_response-Runs : (l : Bytes) → Runs (parse_response l)
unfolding parse_response
parse_response-Runs l =
    >>=-ne-failed _ _ (strip_crlf-Runs _)
      (λ text _. >>=-ne-failed _ _ (status_code-Runs text) (λ code _ h. cc h))

getline-Runs : (closed : Bool) (ls : List Bytes) → Runs (getline closed ls)
unfolding getline
getline-Runs true [] = cc
getline-Runs false [] = cc
getline-Runs closed (l ∷ ls) = cc

pts_response-Runs : (s : Session) → Runs (pts_response s)
unfolding pts_response
pts_response-Runs s =
    >>=-ne-failed _ _ (getline-Runs s.closed s.input)
      (λ (l, ls) _. >>=-ne-failed _ _ (parse_response-Runs l) (λ _ _ h. cc h))

length-getline :
    (closed : Bool) (ls : List Bytes) {l : Bytes} {rest : List Bytes}
    → getline closed ls ≡ ok (l, rest)
    → suc (length rest) ≡ length ls
unfolding getline
length-getline closed [] h = cc h
length-getline closed (l ∷ ls) h = ground (arith, h)

length-pts_response :
    (s : Session) {a : ℕ × Bytes × Session}
    → pts_response s ≡ ok a
    → suc (length a.2.input) ≡ length s.input
unfolding pts_response
length-pts_response s h =
    let ((l, ls), read, h') = >>=-eq-ok (getline s.closed s.input) _ h in
    let ((r, line), _, h'') = >>=-eq-ok (parse_response l) _ h' in
    ground (arith, h'', length-getline s.closed s.input read)

-- To refute an equation of a branch, refute it on both sides.
elim-ne {ℓ} :
    {A : Type ℓ} {x y z : A} (b : Bool)
    → (b ≡ true → x ≢ z)
    → (b ≡ false → y ≢ z)
    → (elim b [ true ↦ x | false ↦ y ]) ≢ z
elim-ne true f g = f refl
elim-ne false f g = g refl

module _ (nntpauth : Option Bytes) (helper : List Bytes → Option (List Bytes × Bytes)) where
  -- The helper reads some of the server's lines and puts none back.
  abbrev pub OnlyReads : Type 0
  OnlyReads =
      (ls rest : List Bytes) (sent : Bytes)
      → helper ls ≡ some (rest, sent)
      → length rest ≤ length ls

  pts_auth-Runs : (s : Session) → Runs (pts_auth nntpauth helper s)
  unfolding pts_auth
  pts_auth-Runs s h = elim (Option-cases nntpauth) [
    | inl unset ↦ ground (arith, unset)
    | inr (a, set) ↦ elim (Option-cases (helper s.input)) [
      | inl exits ↦ ground (arith, set, exits)
      | inr (r, runs) ↦ ground (arith, set, runs)
    ]
  ]

  length-pts_auth :
      (s : Session) {t : Session}
      → OnlyReads
      → pts_auth nntpauth helper s ≡ ok t
      → length t.input ≤ length s.input
  unfolding pts_auth
  length-pts_auth s only h = elim (Option-cases nntpauth) [
    | inl unset ↦ ground (arith, unset)
    | inr (a, set) ↦ elim (Option-cases (helper s.input)) [
      | inl exits ↦ ground (arith, set, exits)
      | inr ((rest, sent), runs) ↦ ground (arith, set, runs, only s.input rest sent runs)
    ]
  ]

  -- A call behind a reply and an authentication has fewer lines to read.
  fewer :
      {fuel r : ℕ} {line : Bytes} (s t u : Session) (text : Bytes)
      → OnlyReads
      → length s.input < suc fuel
      → pts_response (write text s) ≡ ok (r, line, t)
      → pts_auth nntpauth helper t ≡ ok u
      → length u.input < fuel
  fewer s t u text only h reply auth =
      let same : length ((write text s).input) ≡ length s.input = unfold write in refl in
      omega (arith, h, same, length-pts_response (write text s) reply, length-pts_auth t only auth)

  pts_stat-Runs :
      (fuel : ℕ) (msgid : Bytes) (s : Session)
      → OnlyReads
      → length s.input < fuel
      → Runs (pts_stat nntpauth helper fuel msgid s)
  unfolding pts_stat
  pts_stat-Runs zero msgid s only h = absurd (omega (arith, h))
  pts_stat-Runs (suc fuel) msgid s only h =
      >>=-ne-failed _ _ (pts_response-Runs (write (stat_command msgid) s)) (λ (r, line, t) reply.
        elim-ne (r == 480)
          (λ _. >>=-ne-failed _ _ (pts_auth-Runs t) (λ u auth.
            pts_stat-Runs fuel msgid u only (fewer s t u (stat_command msgid) only h reply auth)))
          (λ _ h. cc h))

  length-write : (text : Bytes) (s : Session) → length ((write text s).input) ≡ length s.input
  unfolding write
  length-write text s = refl

  pts_post-Runs :
      (fuel : ℕ) (article : Bytes) (s : Session)
      → OnlyReads
      → length s.input < fuel
      → Runs (pts_post nntpauth helper fuel article s)
  unfolding pts_post send finish
  pts_post-Runs zero article s only h = absurd (omega (arith, h))
  pts_post-Runs (suc fuel) article s only h =
      >>=-ne-failed _ _ (pts_response-Runs (write post_command s)) (λ (r, line, t) reply.
        elim-ne (r == 480)
          (λ _. >>=-ne-failed _ _ (pts_auth-Runs t) (λ u auth.
            pts_post-Runs fuel article u only (fewer s t u post_command only h reply auth)))
          (λ _.
            elim-ne (r == 340)
              (λ _.
                >>=-ne-failed _ _ (pts_response-Runs (write (wire article) t))
                  (λ (r', line', v) reply'.
                    elim-ne (r' == 480)
                      (λ _. >>=-ne-failed _ _ (pts_auth-Runs v) (λ w auth.
                        pts_post-Runs fuel article w only (
                          fewer {fuel = fuel} t v w (wire article) only
                            (omega (
                              arith,
                              h,
                              length-write post_command s,
                              length-pts_response (write post_command s) reply,
                            ))
                            reply' auth)))
                      (λ _ e. cc e)))
              (λ _ e. cc e)))

  handle_job-Runs :
      (j : Bytes × Bytes) (s : Session) → OnlyReads → Runs (handle_job nntpauth helper j s)
  unfolding handle_job post_missing
  handle_job-Runs (msgid, article) s only =
      >>=-ne-failed _ _ (pts_stat-Runs (calls nntpauth helper s) msgid s only (omega arith))
        (λ (r, t) _.
          elim-ne (r == 223) (λ _ e. cc e)
            (λ _. pts_post-Runs (calls nntpauth helper t) article t only (omega arith)))

  -- With a server that sends finitely many lines and a helper that puts none back, the fuel that the loop
  -- over the queue gives to `pts_stat` and `pts_post` is enough.
  pub drain-Runs :
      (js : List (Bytes × Bytes)) (s : Session)
      → OnlyReads
      → drain nntpauth helper js s ≢ failed out_of_fuel
  unfolding drain
  drain-Runs [] s only = cc
  drain-Runs (j ∷ js) s only =
      >>=-ne-failed _ _ (handle_job-Runs j s only) (λ t _. drain-Runs js t only)
