-- ===== src/Html/Tests.antt =====
-- Runs of the HTML output, and its theorem at a concrete input.
use mathlib.Core.List.{flat_map}
use nntp_tools.Prelude.{◌≡◌, refl, [], ◌∷◌, codes, All, arith}
use nntp_tools.Csv.{print_base}
use nntp_tools.Html.{escape_char, escape, thead_cells, thead}
use nntp_tools.Html.Reader.{IsSafe, read, text, read-escape}

escape_tag : escape (codes "<b>&") ≡ codes "&#60;b>&#38;"
unfolding escape flat_map escape_char print_base
escape_tag = refl

thead_two :
    thead (codes "A") (codes "B" ∷ [])
    ≡ codes "<thead>\n<tr>\n<th>A</th>\n<th>B</th>\n</tr>\n</thead>\n"
unfolding thead thead_cells escape flat_map escape_char
thead_two = refl

read-escape_example :
    All IsSafe (escape (codes "a<")) × (read text (escape (codes "a<")) ≡ codes "a<")
read-escape_example = read-escape (codes "a<") (omega arith, (omega arith, tt))
