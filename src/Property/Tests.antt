-- ===== src/Property/Tests.antt =====
-- The theorems on the counters at concrete inputs.
use nntp_tools.Prelude.{◌≡◌, refl, [], ◌∷◌, List, Bytes, codes, equal}
use nntp_tools.Text.{lookup, insert}
use nntp_tools.Property.{
  contains, insert_sender, add_sender, found, update, plus, insert_senders, summarize,
}
use nntp_tools.Property.Counts.{update_all, IsCount, update_all-IsCount}
use nntp_tools.Property.Summary.{IsSum, summarize-IsSum}

abbrev articles : List (Bytes × Bytes)
articles =
    (codes "b", codes "x")
    ∷ (codes "a", codes "y")
    ∷ (codes "a", codes "x")
    ∷ (codes "a", codes "x")
    ∷ []

update_all-IsCount_example :
    IsCount articles (codes "a") (found (lookup (codes "a") (update_all articles)))
update_all-IsCount_example = update_all-IsCount articles (codes "a")

abbrev one_name : Bytes → Bytes
one_name value = codes "all"

-- The sender `x` has written with both values.
twice :
    (found (lookup (codes "all") (summarize one_name (update_all articles) []))).sender_count ≡ 3
unfolding summarize update_all update insert lookup equal found add_sender insert_sender contains
    plus insert_senders
twice = refl

summarize-IsSum_example :
    IsSum one_name
      (codes "all")
      (update_all articles)
      (found (lookup (codes "all") []))
      (found (lookup (codes "all") (summarize one_name (update_all articles) [])))
summarize-IsSum_example = summarize-IsSum one_name (update_all articles) [] (codes "all")
