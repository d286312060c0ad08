-- ===== src/Commits/Lines.antt =====
-- The loop of `process_git_archive` in gateways/bzr2news.c on runs of header lines and of comment lines.
use nntp_tools.Prelude.{
  ℕ, ◌≡◌, refl, ap, sym, ◌∙◌, true, false, List, [], ◌∷◌, ◌++◌, Option, none, some, Bytes, All,
  Result, ok, ◌>>=◌, Result-cases, Option-cases, Bool-cases, equal, inl, inr,
}
use nntp_tools.Prelude.Int.{ℤ}
use nntp_tools.Dates.{Tm}
use nntp_tools.Commits.{LogEntry, empty_entry, Fault, header, set_header, is_recent}
use nntp_tools.Commits.Post.{Config, World}
use nntp_tools.Commits.Git.{
  Place, Scan, at_start, in_header, in_comment, is_header_line, line_text, append_line,
  collect_header, complete_git_commit, header_step, comment_step, in_header_step, start_step,
  git_step, git_lines, git_end, end_commit, post_commit,
}

unfoldable pub IsHeader : Bytes → Type 0
IsHeader line = is_header_line (line_text line) ≡ true

unfoldable pub IsComment : Bytes → Type 0
IsComment line = is_header_line (line_text line) ≡ false

-- The message of comment lines, behind what is there; none: nothing but blank lines.
unfoldable pub message_of : Option Bytes → List Bytes → Option Bytes
message_of m [] = m
message_of m (line ∷ lines) = message_of (append_line m (line_text line)) lines

abbrev pub scan : Place → LogEntry → Option Bytes → World → Scan
scan p l m w = record { place = p; entry = l; message = m; world = w }

module _ (sha1 : Bytes → Bytes) (mktime : Tm → Option ℤ) (int_bytes : ℤ → Bytes)
    (date822 : ℕ → Bytes) (git_show : Bytes → Bytes) (now : ℤ) (c : Config) (dir : Bytes) where
  abbrev run : List Bytes → Scan → Result Fault Scan
  run = git_lines sha1 mktime int_bytes date822 git_show now c dir

  abbrev complete : Option Bytes → LogEntry → World → Result Fault World
  complete = complete_git_commit sha1 mktime int_bytes date822 git_show now c dir

  abbrev collect : Bytes → LogEntry → Result Fault LogEntry
  collect = collect_header sha1 mktime int_bytes date822 git_show now c dir

  -- The entry that header lines make.
  unfoldable pub entry_of : List Bytes → LogEntry → Result Fault LogEntry
  entry_of [] l = ok l
  entry_of (line ∷ lines) l = collect (line_text line) l >>= entry_of lines

  abbrev finish : Scan → Result Fault World
  finish = git_end sha1 mktime int_bytes date822 git_show now c dir

  abbrev begin_header : Bytes → World → Result Fault Scan
  begin_header line w =
      header_step sha1 mktime int_bytes date822 git_show now c dir (line_text line) empty_entry none
        w

  abbrev step : Place → Bytes → Scan → Result Fault Scan
  step p line s = git_step sha1 mktime int_bytes date822 git_show now c dir p (line_text line) s

  module _ (line : Bytes) (l : LogEntry) (m : Option Bytes) (w : World) where
    abbrev at_line : Place → Scan
    at_line p = scan p l m w

    in_header_step-header :
        (p : Place)
        → IsHeader line
        → in_header_step sha1 mktime int_bytes date822 git_show now c dir
            (line_text line)
            (at_line p)
          ≡ header_step sha1 mktime int_bytes date822 git_show now c dir (line_text line) l m w
    unfolding in_header_step IsHeader
    in_header_step-header p h = rw (h, in_header_step) refl

    in_header_step-comment :
        IsComment line
        → in_header_step sha1 mktime int_bytes date822 git_show now c dir
            (line_text line)
            (at_line in_header)
          ≡ comment_step sha1 mktime int_bytes date822 git_show now c dir
              (line_text line)
              (at_line in_header)
    unfolding in_header_step IsComment
    in_header_step-comment h = rw (h, in_header_step) refl

    start_step-header :
        (p : Place)
        → IsHeader line
        → start_step sha1 mktime int_bytes date822 git_show now c dir (line_text line) (at_line p)
          ≡ in_header_step sha1 mktime int_bytes date822 git_show now c dir
              (line_text line)
              (at_line p)
    unfolding start_step IsHeader
    start_step-header p h = rw (h, start_step) refl

    comment_step-comment :
        (p : Place)
        → IsComment line
        → comment_step sha1 mktime int_bytes date822 git_show now c dir (line_text line) (at_line p)
          ≡ ok (scan in_comment l (append_line m (line_text line)) w)
    unfolding comment_step IsComment
    comment_step-comment p h = rw (h, comment_step) refl

  step-header :
      (line : Bytes) (l : LogEntry) (m : Option Bytes) (w : World)
      → IsHeader line
      → step in_header line (scan in_header l m w)
        ≡ (collect (line_text line) l >>= λ k. ok (scan in_header k m w))
  unfolding git_step header_step
  step-header line l m w h = in_header_step-header line l m w in_header h

  pub step-start :
      (line : Bytes) (w : World)
      → IsHeader line
      → step at_start line (scan at_start empty_entry none w) ≡ begin_header line w
  unfolding git_step
  step-start line w h =
      start_step-header line empty_entry none w at_start h
      ∙ in_header_step-header line empty_entry none w at_start h

  step-comment :
      (line : Bytes) (l : LogEntry) (m : Option Bytes) (w : World)
      → IsComment line
      → step in_comment line (scan in_comment l m w)
        ≡ ok (scan in_comment l (append_line m (line_text line)) w)
  unfolding git_step
  step-comment line l m w h = comment_step-comment line l m w in_comment h

  step-comment_first :
      (line : Bytes) (l : LogEntry) (m : Option Bytes) (w : World)
      → IsComment line
      → step in_header line (scan in_header l m w)
        ≡ ok (scan in_comment l (append_line m (line_text line)) w)
  unfolding git_step
  step-comment_first line l m w h =
      in_header_step-comment line l m w h ∙ comment_step-comment line l m w in_header h

  pub step-next :
      (line : Bytes) (l : LogEntry) (m : Option Bytes) (w : World)
      → IsHeader line
      → step in_comment line (scan in_comment l m w) ≡ (complete m l w >>= λ v. begin_header line v)
  unfolding git_step comment_step IsHeader
  step-next line l m w h = rw (h, comment_step) refl

  pub run-headers :
      (lines rest : List Bytes) (l : LogEntry) (m : Option Bytes) (w : World)
      → All IsHeader lines
      → run (lines ++ rest) (scan in_header l m w)
        ≡ (entry_of lines l >>= λ k. run rest (scan in_header k m w))
  unfolding entry_of git_lines
  run-headers [] rest l m w _ = refl
  run-headers (line ∷ lines) rest l m w (h, hs) =
      ap (λ r. r >>= run (lines ++ rest)) (step-header line l m w h)
      ∙ elim (Result-cases (collect (line_text line) l)) [
        | inl (k, e) ↦ rw (e) (run-headers lines rest k m w hs)
        | inr (f, e) ↦ rw (e) refl
      ]

  run-comments :
      (lines rest : List Bytes) (l : LogEntry) (m : Option Bytes) (w : World)
      → All IsComment lines
      → run (lines ++ rest) (scan in_comment l m w)
        ≡ run rest (scan in_comment l (message_of m lines) w)
  unfolding message_of git_lines
  run-comments [] rest l m w _ = refl
  run-comments (line ∷ lines) rest l m w (h, hs) =
      ap (λ r. r >>= run (lines ++ rest)) (step-comment line l m w h)
      ∙ run-comments lines rest l (append_line m (line_text line)) w hs

  -- The comment lines behind the headers.
  pub run-comment_lines :
      (line : Bytes) (lines rest : List Bytes) (l : LogEntry) (w : World)
      → All IsComment (line ∷ lines)
      → run (line ∷ (lines ++ rest)) (scan in_header l none w)
        ≡ run rest (scan in_comment l (message_of none (line ∷ lines)) w)
  unfolding message_of git_lines
  run-comment_lines line lines rest l w (h, hs) =
      ap (λ r. r >>= run (lines ++ rest)) (step-comment_first line l none w h)
      ∙ run-comments lines rest l (append_line none (line_text line)) w hs

  pub run-comment_first :
      (lines rest : List Bytes) (message : Bytes) (l : LogEntry) (w : World)
      → All IsComment lines
      → message_of none lines ≡ some message
      → run (lines ++ rest) (scan in_header l none w)
        ≡ run rest (scan in_comment l (some message) w)
  unfolding message_of
  run-comment_first [] rest message l w _ e = absurd (cc e)
  run-comment_first (line ∷ lines) rest message l w h e =
      run-comment_lines line lines rest l w h ∙ ap (λ m. run rest (scan in_comment l m w)) e

  -- Without a commit id nothing is posted.
  complete-none :
      (message : Bytes) (l : LogEntry) (w : World)
      → l.commitid ≡ none
      → complete (some message) l w ≡ ok w
  unfolding complete_git_commit post_commit header set_header equal
  complete-none message l w e = elim (Bool-cases (is_recent c.maxage now l.timestamp)) [
    | inl r ↦ rw (r, e) refl
    | inr r ↦ rw (r) refl
  ]

  pub finish-none : (s : Scan) → s.entry.commitid ≡ none → finish s ≡ ok s.world
  unfolding git_end end_commit
  finish-none s e = ap (λ i. end_commit sha1 mktime int_bytes date822 git_show now c dir i s) e

  finish-some :
      (s : Scan) (i : Bytes)
      → s.entry.commitid ≡ some i
      → finish s ≡ complete s.message s.entry s.world
  unfolding git_end end_commit
  finish-some s i e = ap (λ i. end_commit sha1 mktime int_bytes date822 git_show now c dir i s) e

  pub finish-complete :
      (message : Bytes) (l : LogEntry) (w : World)
      → finish (scan in_comment l (some message) w) ≡ complete (some message) l w
  finish-complete message l w = elim (Option-cases (l.commitid)) [
    | inl e ↦ finish-none (scan in_comment l (some message) w) e ∙ sym (complete-none message l w e)
    | inr (i, e) ↦ finish-some (scan in_comment l (some message) w) i e
  ]

  pub begin-headers :
      (first : Bytes) (more rest : List Bytes) (w : World)
      → All IsHeader more
      → (begin_header first w >>= run (more ++ rest))
        ≡ (entry_of (first ∷ more) empty_entry >>= λ k. run rest (scan in_header k none w))
  unfolding header_step entry_of
  begin-headers first more rest w hs = elim (Result-cases (collect (line_text first) empty_entry)) [
    | inl (k, e) ↦ rw (e) (run-headers more rest k none w hs)
    | inr (f, e) ↦ rw (e) refl
  ]
