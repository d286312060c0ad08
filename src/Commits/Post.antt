-- ===== src/Commits/Post.antt =====
-- `post_log` of gateways/bzr2news.c. SHA-1 and the bytes of an `int` are arguments, and so is what
-- `strftime` makes of the clock at each article, the first of them being number 0.
use nntp_tools.Prelude.{
  ℕ, ◌+◌, ◌-◌, Bool, List, [], ◌∷◌, ◌++◌, Option, none, some, Bytes, codes, ltb, ◌==◌,
  if◌then◌else◌, length, take, Result, ok, failed, ◌>>=◌,
}
use nntp_tools.Prelude.Int.{ℤ, pos, negsuc}
use nntp_tools.Atoi.{skip_space}
use nntp_tools.Csv.Numbers.{decimal}
use nntp_tools.Feed.Article.{hex}
use nntp_tools.Seen
use nntp_tools.Commits.{LogEntry, Fault, seen_fault, null_text}

-- The options.
pub record Config : Type 0 where
  pub newsgroup : Bytes
  pub msgiddomain : Bytes
  pub salt : Bytes
  pub encoding : Bytes
  pub preview : Bool
  pub diffs : Bool
  pub maxage : ℕ

-- The tracking file, the articles that have been posted with their message ids, and those shown.
pub record World : Type 0 where
  pub file : Bytes
  pub posted : List (Bytes × Bytes)
  pub shown : List Bytes

unfoldable pub as_seen {ℓ} : {A : Type ℓ} → Result Seen.Fault A → Result Fault A
as_seen (ok a) = ok a
as_seen (failed e) = failed (seen_fault e)

-- A string that the code uses without a test for NULL.
unfoldable pub need : Option Bytes → Result Fault Bytes
need none = failed null_text
need (some s) = ok s

unfoldable pub first_line : Bytes → Bytes
first_line [] = []
first_line (c ∷ s) = if c == b'\n' then [] else c ∷ first_line s

-- `%.*s` with `subject_len`: a negative precision counts as none.
unfoldable pub subject_text : Bytes → Bytes → Bytes
subject_text branch message =
    let subject = skip_space message in
    let subject_len = length (first_line subject) in
    if ltb 58 (length branch)
    then subject
    else if ltb (58 - length branch) subject_len
    then take (58 - length branch) subject
    else take subject_len subject

-- The headers that depend on whether there is a revision number.
unfoldable pub revision_headers : ℤ → Bytes → Bytes → Bytes → Bytes
revision_headers (negsuc n) commitid branch subject =
    codes "X-Git-Commit: "
    ++ (commitid
        ++ (codes "\nSubject: ["
            ++ (branch ++ (codes "] " ++ (take 8 commitid ++ (b' ' ∷ (subject ++ b'\n' ∷ [])))))))
revision_headers (pos n) commitid branch subject =
    codes "X-Bzr-Revision: "
    ++ (decimal n
        ++ (codes "\nSubject: ["
            ++ (branch ++ (codes "] " ++ (decimal n ++ (b' ' ∷ (subject ++ b'\n' ∷ [])))))))

-- The changes, if they are asked for and there are any.
unfoldable pub diff_text : Bool → Option Bytes → Bytes
diff_text diffs none = []
diff_text diffs (some d) = elim (skip_space d) [
  | [] ↦ []
  | c ∷ s ↦
      if diffs
      then codes "\n* Changes --------------------------------------------------------------\n\n"
        ++ (c ∷ s)
      else []
]

unfoldable pub charset : Bytes → Option Bytes → Bytes
charset encoding none = encoding
charset encoding (some e) = e

module _ (sha1 : Bytes → Bytes) (int_bytes : ℤ → Bytes) (date822 : ℕ → Bytes) (c : Config) where
  unfoldable pub revision_bytes : ℤ → Bytes → Bytes
  revision_bytes (negsuc n) commitid = commitid
  revision_bytes (pos n) commitid = int_bytes (pos n)

  unfoldable pub message_id : Bytes → LogEntry → Bytes → Bytes
  message_id dir l commitid =
      b'<'
      ∷ (hex (
            take 20
              (sha1 (codes "bzr2news" ++ (c.salt ++ (dir ++ revision_bytes l.revno commitid)))))
          ++ (b'@' ∷ (c.msgiddomain ++ b'>' ∷ [])))

  -- The text of the article with the given number.
  unfoldable pub article_text : ℕ → Bytes → LogEntry → Bytes → Bytes → Bytes → Bytes → Bytes
  article_text n msgid l commitid committer branch message =
      codes "Newsgroups: "
      ++ (c.newsgroup
          ++ (codes "\nFrom: "
              ++ (committer
                  ++ (codes "\nDate: "
                      ++ (date822 n
                          ++ (codes "\nMessage-ID: "
                              ++ (msgid
                                  ++ (codes
                                        "\nMIME-Version: 1.0\nContent-Type: text/plain; charset="
                                      ++ (charset c.encoding l.encoding
                                          ++ (codes "\nContent-Transfer-Encoding: 8bit\n"
                                              ++ (revision_headers l.revno commitid branch
                                                    (subject_text branch message)
                                                  ++ (b'\n'
                                                      ∷ (message
                                                          ++ (b'\n'
                                                            ∷ diff_text c.diffs l.diff))))))))))))))

  -- The article is shown, or posted and remembered.
  unfoldable pub deliver : Bytes → Bytes → Bytes → World → Result Fault World
  deliver commitid msgid text w =
      if c.preview
      then ok (record w {
        shown =
            w.shown
            ++ (text
                ++ codes
                    "------------------------------------------------------------------------\n\n")
              ∷ [];
      })
      else (as_seen (Seen.remember w.file commitid) >>= λ file.
          ok (record w { file = file; posted = w.posted ++ (msgid, text) ∷ [] }))

  -- How many articles have been made.
  unfoldable pub articles_made : World → ℕ
  articles_made w = length w.posted + length w.shown

  unfoldable pub post_new : Bytes → LogEntry → Bytes → World → Result Fault World
  post_new dir l commitid w = need l.committer >>= λ committer. need l.message >>= λ message.
      need l.branch >>= λ branch.
      deliver commitid (message_id dir l commitid)
        (article_text (articles_made w) (message_id dir l commitid) l commitid committer branch
          message)
        w

  -- `post_log`.
  unfoldable pub post_log : Bytes → LogEntry → World → Result Fault World
  post_log dir l w = need l.commitid >>= λ commitid.
      as_seen (Seen.seen w.file commitid) >>= λ known.
      if known then ok w else post_new dir l commitid w
