-- ===== src/Spool/Reading.antt =====
-- The reading of an article in spoolstats/AllGroups.cc is given enough rounds.
use nntp_tools.Prelude.{
  ℕ, zero, suc, ◌+◌, ◌≤◌, ◌≡◌, refl, ap, ◌∙◌, [], ◌∷◌, ◌++◌, Bytes, length, take, drop, length-drop,
  some, if◌then◌else◌, arith,
}
use nntp_tools.Article.{Headers, parse}
use nntp_tools.Article.Total.{parse-total}
use nntp_tools.Spool.{has_end, read_from, read_article}

-- A further round changes nothing.
read_from-suc :
    (fuel : ℕ) (text rest : Bytes)
    → length rest ≤ fuel
    → read_from (suc fuel) text rest ≡ read_from fuel text rest
unfolding read_from
read_from-suc zero text [] h = refl
read_from-suc zero text (c ∷ rest) h = absurd (omega (arith, h))
read_from-suc (suc fuel) text [] h = refl
read_from-suc (suc fuel) text (c ∷ rest) h =
    let more = text ++ take 2048 (c ∷ rest) in
    ap (λ later. if has_end more then more else later)
      (read_from-suc fuel more (drop 2048 (c ∷ rest))
        (omega (arith, h, length-drop 2048 (c ∷ rest))))

-- Any number of rounds from the length of the file on reads the same.
pub read_article-enough :
    (more : ℕ) (file : Bytes) → read_from (more + length file) [] file ≡ read_article file
unfolding read_article
read_article-enough zero file = ap (λ n. read_from n [] file) (omega arith)
read_article-enough (suc more) file =
    ap (λ n. read_from n [] file) (omega arith)
    ∙ read_from-suc (more + length file) [] file (omega arith)
    ∙ read_article-enough more file

-- The headers that are read from a file.
pub headers_of : Bytes → Headers
headers_of file = (parse-total (read_article file)).0

pub parse-headers_of : (file : Bytes) → parse (read_article file) ≡ some (headers_of file)
unfolding headers_of
parse-headers_of file = (parse-total (read_article file)).1
