-- ===== src/Html.antt =====
-- HTML output, lib/Escape.cc, lib/Quote.cc, lib/thead.cc and lib/Header.cc.
pub mod Reader
mod Tests
use mathlib.Core.List.{flat_map}
use nntp_tools.Prelude.{
  ℕ, zero, suc, ◌+◌, ◌*◌, ◌-◌, ◌<◌, ◌≤◌, ◌≡◌, ◌≢◌, refl, sym, ap, ◌∙◌, Bool, true, false, not, ◌&&◌,
  ◌||◌, List, [], ◌∷◌, ◌++◌, append_assoc, append-nil, Option, none, some, Bytes, codes, All,
  All-append, inl, inr, Bool-cases, leb, ◌==◌, equal, equal_iff, if◌then◌else◌, arith,
}
use nntp_tools.Text.{is_digit}
use nntp_tools.Words.{AreBytes}
use nntp_tools.Csv.{print_base}

-- What `Escape::write` writes for one byte, an `unsigned char` here.
unfoldable pub escape_char : ℕ → Bytes
unfolding print_base
escape_char c =
    let escaped = if leb 32 c && leb c 126 then c == b'"' || c == b'<' || c == b'&' else true in
    if escaped then b'&' ∷ b'#' ∷ (print_base 10 20 c ++ b';' ∷ []) else c ∷ []

unfoldable pub escape : Bytes → Bytes
unfolding flat_map
escape s = flat_map escape_char s

unfoldable pub quote : Bytes → Bytes
unfolding escape
quote s = b'"' ∷ (escape s ++ b'"' ∷ [])

-- `thead`: the headings are the arguments up to the null pointer, of which there is at least one.
unfoldable pub thead_cells : List Bytes → Bytes
unfolding escape
thead_cells [] = []
thead_cells (h ∷ hs) = codes "<th>" ++ escape h ++ codes "</th>\n" ++ thead_cells hs

unfoldable pub thead : Bytes → List Bytes → Bytes
unfolding thead_cells
thead heading more =
    codes "<thead>\n"
    ++ codes "<tr>\n"
    ++ thead_cells (heading ∷ more)
    ++ codes "</tr>\n"
    ++ codes "</thead>\n"

-- `Header::write`; a null `css` or `js` is `none`.
unfoldable pub header : Bytes → Option Bytes → Option Bytes → Bytes
unfolding escape quote
header title css js =
    codes "<!DOCTYPE HTML PUBLIC \"-//W3C//DTD HTML 4.01//EN\">\n"
    ++ codes "<html>\n"
    ++ codes "<head><title>"
    ++ escape title
    ++ codes "</title>\n"
    ++ elim css [
      | none ↦ []
      | some c ↦
          codes "<link rel=StyleSheet type="
          ++ quote (codes "text/css")
          ++ codes " href="
          ++ quote c
          ++ codes ">\n"
    ]
    ++ elim js [ none ↦ [] | some j ↦ codes "<script src=" ++ quote j ++ codes "></script>\n" ]
    ++ codes "<body>\n"
    ++ codes "<h1>"
    ++ escape title
    ++ codes "</h1>\n"
