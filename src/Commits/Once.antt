-- ===== src/Commits/Once.antt =====
-- Entries posted one after the other by `post_log` of gateways/bzr2news.c, with the tracking file of lib/seen.c.
use nntp_tools.Prelude.{
  ℕ, suc, ◌+◌, ◌*◌, ◌^◌, ◌<◌, ◌≡◌, refl, ap, sym, ◌∙◌, true, false, List, [], ◌∷◌, ◌++◌, append-nil,
  append_assoc, length-append, some, Bytes, length, Result, ok, ◌>>=◌, Bool-cases, inl, inr, arith,
}
use nntp_tools.Prelude.Int.{ℤ}
use nntp_tools.Seen
use nntp_tools.Seen.Calls.{IsCommit, seen-nil}
use nntp_tools.Seen.Set.{IsTracking, nil-IsTracking, Remembered, remember-Remembered}
use nntp_tools.Seen.History.{contains, seen-after}
use nntp_tools.Commits.{LogEntry, Fault}
use nntp_tools.Commits.Post.{
  Config, World, as_seen, need, message_id, article_text, deliver, articles_made, post_new,
  post_log,
}

-- An entry with all that an article needs, and a commit id that the tracking file can hold.
pub record Postable : Type 0 where
  pub entry : LogEntry
  pub commitid : Bytes
  pub committer : Bytes
  pub message : Bytes
  pub branch : Bytes
  pub has_commitid : entry.commitid ≡ some commitid
  pub has_committer : entry.committer ≡ some committer
  pub has_message : entry.message ≡ some message
  pub has_branch : entry.branch ≡ some branch
  pub storable : IsCommit commitid

known-after :
    (file : Bytes) (known : List Bytes) (commit : Bytes) (r : Remembered file commit)
    → ((d : Bytes) → Seen.seen file d ≡ ok (contains known d))
    → (d : Bytes) → Seen.seen r.after d ≡ ok (contains (commit ∷ known) d)
unfolding contains
known-after file known commit r answers d =
    seen-after file commit d r (answers d) ∙ ap (λ b. ok b) (ground arith)

module _ (sha1 : Bytes → Bytes) (int_bytes : ℤ → Bytes) (date822 : ℕ → Bytes) (c : Config)
    (dir : Bytes) where
  unfoldable pub post_all : List Postable → World → Result Fault World
  post_all [] w = ok w
  post_all (p ∷ ps) w = post_log sha1 int_bytes date822 c dir p.entry w >>= post_all ps

  -- The message id and the article of an entry, which is posted as the article with the given number.
  unfoldable pub article : ℕ → Postable → Bytes × Bytes
  article n p =
      let msgid = message_id sha1 int_bytes date822 c dir p.entry p.commitid in
      (
        msgid,
        article_text sha1 int_bytes date822 c n msgid p.entry p.commitid p.committer p.branch
            p.message,
      )

  -- The articles of the entries whose commits are not known before, each once, from a number on.
  unfoldable pub first_articles : ℕ → List Bytes → List Postable → List (Bytes × Bytes)
  first_articles n known [] = []
  first_articles n known (p ∷ ps) = elim (contains known p.commitid) [
    | true ↦ first_articles n known ps
    | false ↦ article n p ∷ first_articles (suc n) (p.commitid ∷ known) ps
  ]

  abbrev made : World → ℕ
  made = articles_made sha1 int_bytes date822 c

  post_log-known :
      (p : Postable) (w : World)
      → Seen.seen w.file p.commitid ≡ ok true
      → post_log sha1 int_bytes date822 c dir p.entry w ≡ ok w
  unfolding post_log need as_seen
  post_log-known p w h = rw (p.has_commitid, h) refl

  post_log-new :
      (p : Postable) (w : World) (after : Bytes)
      → c.preview ≡ false
      → Seen.seen w.file p.commitid ≡ ok false
      → Seen.remember w.file p.commitid ≡ ok after
      → post_log sha1 int_bytes date822 c dir p.entry w
        ≡ ok (record w { file = after; posted = w.posted ++ article (made w) p ∷ [] })
  unfolding post_log post_new deliver need as_seen article
  post_log-new p w after live h r =
      rw (p.has_commitid, h, p.has_committer, p.has_message, p.has_branch, live, r) refl

  made-posted :
      (w : World) (file : Bytes) (a : Bytes × Bytes)
      → made (record w { file = file; posted = w.posted ++ a ∷ [] }) ≡ suc (made w)
  unfolding articles_made
  made-posted w file a = omega (arith, length-append w.posted (a ∷ []))

  first_articles-known :
      (n : ℕ) (known : List Bytes) (p : Postable) (ps : List Postable)
      → contains known p.commitid ≡ true
      → first_articles n known (p ∷ ps) ≡ first_articles n known ps
  unfolding first_articles
  first_articles-known n known p ps h = rw (h, first_articles) refl

  first_articles-new :
      (n : ℕ) (known : List Bytes) (p : Postable) (ps : List Postable)
      → contains known p.commitid ≡ false
      → first_articles n known (p ∷ ps)
        ≡ article n p ∷ first_articles (suc n) (p.commitid ∷ known) ps
  unfolding first_articles
  first_articles-new n known p ps h = rw (h, first_articles) refl

  post_all-first_from :
      (known : List Bytes) (ps : List Postable) (w : World)
      → c.preview ≡ false
      → IsTracking w.file
      → length w.file + 64 * length ps < 2 ^ 63
      → ((d : Bytes) → Seen.seen w.file d ≡ ok (contains known d))
      → (v : World) × (post_all ps w ≡ ok v)
        × (v.posted ≡ w.posted ++ first_articles (made w) known ps)
  unfolding post_all first_articles
  post_all-first_from known [] w live k room answers = (w, refl, sym (append-nil w.posted))
  post_all-first_from known (p ∷ ps) w live k room answers =
      elim (Bool-cases (contains known p.commitid)) [
        | inl old ↦
            let (v, runs, posted) = post_all-first_from known ps w live k (omega arith) answers in
            let stays = post_log-known p w (answers p.commitid ∙ ap (λ b. ok b) old) in
            (
              v,
              rw (stays) runs,
              posted
                  ∙ ap (λ more. w.posted ++ more)
                      (sym (first_articles-known (made w) known p ps old)),
            )
        | inr fresh ↦
            let r = remember-Remembered w.file p.commitid k p.storable (omega arith) in
            let posts =
              post_log-new p w r.after live (answers p.commitid ∙ ap (λ b. ok b) fresh) r.returns in
            let first = article (made w) p in
            let next : World = record w { file = r.after; posted = w.posted ++ first ∷ [] } in
            let (v, runs, posted) =
              post_all-first_from (p.commitid ∷ known) ps next live r.tracking
                (omega (arith, r.size)) (known-after w.file known p.commitid r answers) in
            let later =
              ap (λ n. first_articles n (p.commitid ∷ known) ps) (made-posted w r.after first) in
            (
              v,
              rw (posts) runs,
              posted
                  ∙ (ap (λ more. (w.posted ++ first ∷ []) ++ more) later
                      ∙ (append_assoc w.posted (first ∷ [])
                            (first_articles (suc (made w)) (p.commitid ∷ known) ps)
                          ∙ ap (λ more. w.posted ++ more)
                              (sym (first_articles-new (made w) known p ps fresh)))),
            )
      ]

  -- Posting entries, with repeats, from an empty tracking file and few enough for it to stay below 2 ^ 63
  -- bytes, ends without a fault and posts the article of the first entry of each commit id, in order,
  -- and no other, each with the date of the clock at it.
  pub post_all-first :
      (ps : List Postable)
      → c.preview ≡ false
      → 64 * length ps < 2 ^ 63
      → (v : World) × (post_all ps (record { file = []; posted = []; shown = [] }) ≡ ok v)
        × (v.posted ≡ first_articles 0 [] ps)
  unfolding articles_made
  post_all-first ps live room =
      post_all-first_from [] ps (record { file = []; posted = []; shown = [] }) live nil-IsTracking
        (omega (arith, room)) (unfold contains in seen-nil)
