-- ===== src/Split/Tests.antt =====
-- Runs of `split`.
use nntp_tools.Prelude.{◌≡◌, refl, [], ◌∷◌, codes, All}
use nntp_tools.Split.{split, split_lem, Lacks, join}

split_groups : split b',' (codes "a.b,,c") ≡ codes "a.b" ∷ [] ∷ codes "c" ∷ []
unfolding split
split_groups = refl

split_lem_example :
    All (Lacks b',') (split b',' (codes "a,b"))
    × (join b',' (split b',' (codes "a,b")) ≡ codes "a,b")
split_lem_example = split_lem b',' (codes "a,b")
