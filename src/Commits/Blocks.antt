-- ===== src/Commits/Blocks.antt =====
-- The loop of `process_git_archive` in gateways/bzr2news.c, against a log cut into its commits.
use nntp_tools.Prelude.{
  ℕ, ◌≡◌, refl, ap, sym, ◌∙◌, List, [], ◌∷◌, ◌++◌, Option, none, some, Bytes, All, Result, ok,
  failed, ◌>>=◌, Result-cases, inl, inr,
}
use nntp_tools.Prelude.Int.{ℤ}
use nntp_tools.Dates.{Tm}
use nntp_tools.Commits.{LogEntry, empty_entry, Fault, null_message}
use nntp_tools.Commits.Post.{Config, World}
use nntp_tools.Commits.Git.{
  Scan, at_start, in_header, in_comment, line_text, collect_header, complete_git_commit,
  header_step, git_lines, git_end, process_git_log,
}
use nntp_tools.Commits.Lines.{
  IsHeader, IsComment, message_of, scan, entry_of, step-start, step-next, run-headers,
  run-comment_lines, run-comment_first, finish-none, finish-complete, begin-headers,
}

-- A commit in the log: its first header line, the others, and the comment lines.
pub record Block : Type 0 where
  pub first : Bytes
  pub more : List Bytes
  pub comment : List Bytes

pub record IsBlock (b : Block) : Type 0 where
  pub first_header : IsHeader b.first
  pub more_headers : All IsHeader b.more
  pub comments : All IsComment b.comment
  pub message : Bytes
  pub has_message : message_of none b.comment ≡ some message

-- The lines of the blocks.
unfoldable pub block_lines : List Block → List Bytes → List Bytes
block_lines [] rest = rest
block_lines (b ∷ bs) rest = b.first ∷ (b.more ++ (b.comment ++ block_lines bs rest))

module _ (sha1 : Bytes → Bytes) (mktime : Tm → Option ℤ) (int_bytes : ℤ → Bytes)
    (date822 : ℕ → Bytes) (git_show : Bytes → Bytes) (now : ℤ) (c : Config) (dir : Bytes) where
  abbrev run : List Bytes → Scan → Result Fault Scan
  run = git_lines sha1 mktime int_bytes date822 git_show now c dir

  abbrev complete : Option Bytes → LogEntry → World → Result Fault World
  complete = complete_git_commit sha1 mktime int_bytes date822 git_show now c dir

  abbrev collect : Bytes → LogEntry → Result Fault LogEntry
  collect = collect_header sha1 mktime int_bytes date822 git_show now c dir

  abbrev finish : Scan → Result Fault World
  finish = git_end sha1 mktime int_bytes date822 git_show now c dir

  abbrev begin_header : Bytes → World → Result Fault Scan
  begin_header line w =
      header_step sha1 mktime int_bytes date822 git_show now c dir (line_text line) empty_entry none
        w

  -- One commit after the other: the headers make its entry, the comment its message.
  unfoldable pub process_blocks : List Block → World → Result Fault World
  process_blocks [] w = ok w
  process_blocks (b ∷ bs) w =
      entry_of sha1 mktime int_bytes date822 git_show now c dir (b.first ∷ b.more) empty_entry
      >>= λ l. complete (message_of none b.comment) l w >>= process_blocks bs

  then_ok : (r : Result Fault World) → (r >>= process_blocks []) ≡ r
  unfolding process_blocks
  then_ok (ok w) = refl
  then_ok (failed f) = refl

  -- The rest of a log behind the first header of a commit, if the log behind its comment is right.
  abbrev IsRest : List Block → Type 0
  IsRest bs =
      (message : Bytes) (l : LogEntry) (w : World)
      → (run (block_lines bs []) (scan in_comment l (some message) w) >>= finish)
        ≡ (complete (some message) l w >>= process_blocks bs)

  block-first :
      (b : Block) (bs : List Block) (w : World)
      → IsBlock b
      → IsRest bs
      → (begin_header b.first w >>= run (b.more ++ (b.comment ++ block_lines bs [])) >>= finish)
        ≡ process_blocks (b ∷ bs) w
  unfolding process_blocks entry_of header_step
  block-first b bs w h rest = elim (Result-cases (collect (line_text b.first) empty_entry)) [
    | inr (f, e) ↦ rw (e) refl
    | inl (k, e) ↦
        rw
          (
            e,
            run-headers sha1 mktime int_bytes date822 git_show now c dir b.more
                (b.comment ++ block_lines bs []) k none w h.more_headers,
          )
          (behind k)
  ]
    where
      behind :
          (k : LogEntry)
          → ((entry_of sha1 mktime int_bytes date822 git_show now c dir b.more k >>= λ l.
                run (b.comment ++ block_lines bs []) (scan in_header l none w))
              >>= finish)
            ≡ (entry_of sha1 mktime int_bytes date822 git_show now c dir b.more k >>= λ l.
                complete (message_of none b.comment) l w >>= process_blocks bs)
      behind k =
          elim (Result-cases (entry_of sha1 mktime int_bytes date822 git_show now c dir b.more k)) [
            | inr (f, e) ↦ rw (e) refl
            | inl (l, e) ↦
                rw
                  (
                    e,
                    run-comment_first sha1 mktime int_bytes date822 git_show now c dir b.comment
                        (block_lines bs []) h.message l w h.comments h.has_message,
                    h.has_message,
                  )
                  (rest h.message l w)
          ]

  block_lines-IsRest : (bs : List Block) → All IsBlock bs → IsRest bs
  unfolding block_lines git_lines
  block_lines-IsRest [] _ message l w =
      finish-complete sha1 mktime int_bytes date822 git_show now c dir message l w
      ∙ sym (then_ok (complete (some message) l w))
  block_lines-IsRest (b ∷ bs) (h, hs) message l w =
      ap (λ r. r >>= run (b.more ++ (b.comment ++ block_lines bs [])) >>= finish)
        (step-next sha1 mktime int_bytes date822 git_show now c dir b.first l (some message) w
          h.first_header)
      ∙ elim (Result-cases (complete (some message) l w)) [
        | inr (f, e) ↦ rw (e) refl
        | inl (v, e) ↦ rw (e) (block-first b bs v h (block_lines-IsRest bs hs))
      ]

  -- A log of commits, each with header lines and a comment that is not blank, is handled as one commit
  -- after the other: its headers make the entry, its comment the message, and nothing of one commit is
  -- left for the next.
  pub process_git_log-blocks :
      (bs : List Block) (w : World)
      → All IsBlock bs
      → process_git_log sha1 mktime int_bytes date822 git_show now c dir (block_lines bs []) w
        ≡ process_blocks bs w
  unfolding process_git_log block_lines git_lines process_blocks
  process_git_log-blocks [] w _ =
      finish-none sha1 mktime int_bytes date822 git_show now c dir
        (scan at_start empty_entry none w) refl
  process_git_log-blocks (b ∷ bs) w (h, hs) =
      ap (λ r. r >>= run (b.more ++ (b.comment ++ block_lines bs [])) >>= finish)
        (step-start sha1 mktime int_bytes date822 git_show now c dir b.first w h.first_header)
      ∙ block-first b bs w h (block_lines-IsRest bs hs)

  -- A first commit with header lines that are read and a comment of blank lines only, in front of the
  -- header of another commit, ends the process by the assertion on its message.
  pub process_git_log-null_message :
      (first : Bytes) (more : List Bytes) (blank : Bytes) (blanks : List Bytes) (next : Bytes)
      (rest : List Bytes) (l : LogEntry) (w : World)
      → IsHeader first
      → All IsHeader more
      → All IsComment (blank ∷ blanks)
      → message_of none (blank ∷ blanks) ≡ none
      → entry_of sha1 mktime int_bytes date822 git_show now c dir (first ∷ more) empty_entry ≡ ok l
      → IsHeader next
      → process_git_log sha1 mktime int_bytes date822 git_show now c dir
          (first ∷ (more ++ (blank ∷ (blanks ++ (next ∷ rest)))))
          w
        ≡ failed null_message
  unfolding process_git_log git_lines complete_git_commit
  process_git_log-null_message first more blank blanks next rest l w h hs hb none_left read hn =
      let tail = blank ∷ (blanks ++ (next ∷ rest)) in
      ap (λ r. r >>= run (more ++ tail) >>= finish)
        (step-start sha1 mktime int_bytes date822 git_show now c dir first w h)
      ∙ (ap (λ r. r >>= finish)
            (begin-headers sha1 mktime int_bytes date822 git_show now c dir first more tail w hs)
          ∙ (ap (λ r. r >>= (λ k. run tail (scan in_header k none w)) >>= finish) read
              ∙ (ap (λ r. r >>= finish)
                    (run-comment_lines sha1 mktime int_bytes date822 git_show now c dir blank blanks
                      (next ∷ rest) l w hb)
                  ∙ (ap (λ m. run (next ∷ rest) (scan in_comment l m w) >>= finish) none_left
                      ∙ ap (λ r. r >>= run rest >>= finish)
                          (step-next sha1 mktime int_bytes date822 git_show now c dir next l none w
                            hn)))))
