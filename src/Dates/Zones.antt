-- ===== src/Dates/Zones.antt =====
-- The table of zone names, lib/Timezones.cc and Timezones.h.
use nntp_tools.Prelude.{◌+◌, ◌*◌, List, [], ◌∷◌, Option, Bytes, codes}
use nntp_tools.Prelude.Int.{ℤ, pos, negate}
use nntp_tools.Text.{lookup, insert}

-- The assignments of the constructor, in order.
abbrev pub assignments : List (Bytes × ℤ)
assignments =
    (codes "A", pos (60 * 60))
    ∷ (codes "ACDT", pos ((10 * 60 + 30) * 60))
    ∷ (codes "ACST", pos ((9 * 60 + 30) * 60))
    ∷ (codes "ADT", negate (3 * 60))
    ∷ (codes "AEDT", pos (11 * 60))
    ∷ (codes "AEST", pos (10 * 60))
    ∷ (codes "AKDT", negate (8 * 60))
    ∷ (codes "AKST", negate (9 * 60))
    ∷ (codes "AST", negate (4 * 60))
    ∷ (codes "AWDT", pos (9 * 60))
    ∷ (codes "AWST", pos (8 * 60))
    ∷ (codes "B", pos (2 * 60))
    ∷ (codes "BST", pos (60 * 60))
    ∷ (codes "C", pos (3 * 60))
    ∷ (codes "CDT", pos ((10 * 60 + 30) * 60))
    ∷ (codes "CDT", negate (5 * 60))
    ∷ (codes "CEDT", pos (2 * 60))
    ∷ (codes "CEST", pos (2 * 60))
    ∷ (codes "CET", pos (60 * 60))
    ∷ (codes "CST", pos ((10 * 60 + 30) * 60))
    ∷ (codes "CST", pos ((9 * 60 + 30) * 60))
    ∷ (codes "CST", negate (6 * 60))
    ∷ (codes "CXT", pos (7 * 60))
    ∷ (codes "D", pos (4 * 60))
    ∷ (codes "E", pos (5 * 60))
    ∷ (codes "EDT", pos (11 * 60))
    ∷ (codes "EDT", negate (4 * 60))
    ∷ (codes "EEDT", pos (3 * 60))
    ∷ (codes "EEST", pos (3 * 60))
    ∷ (codes "EET", pos (2 * 60))
    ∷ (codes "EST", pos (11 * 60))
    ∷ (codes "EST", pos (10 * 60))
    ∷ (codes "EST", negate (5 * 60))
    ∷ (codes "F", pos (6 * 60))
    ∷ (codes "G", pos (7 * 60))
    ∷ (codes "GMT", pos 0)
    ∷ (codes "H", pos (8 * 60))
    ∷ (codes "HAA", negate (3 * 60))
    ∷ (codes "HAC", negate (5 * 60))
    ∷ (codes "HADT", negate (9 * 60))
    ∷ (codes "HAE", negate (4 * 60))
    ∷ (codes "HAP", negate (7 * 60))
    ∷ (codes "HAR", negate (6 * 60))
    ∷ (codes "HAST", negate (10 * 60))
    ∷ (codes "HAT", negate ((2 * 60 + 30) * 60))
    ∷ (codes "HAY", negate (8 * 60))
    ∷ (codes "HNA", negate (4 * 60))
    ∷ (codes "HNC", negate (6 * 60))
    ∷ (codes "HNE", negate (5 * 60))
    ∷ (codes "HNP", negate (8 * 60))
    ∷ (codes "HNR", negate (7 * 60))
    ∷ (codes "HNT", negate ((3 * 60 + 30) * 60))
    ∷ (codes "HNY", negate (9 * 60))
    ∷ (codes "HST", negate (10 * 60))
    ∷ (codes "I", pos (9 * 60))
    ∷ (codes "IST", pos (60 * 60))
    ∷ (codes "K", pos (10 * 60))
    ∷ (codes "L", pos (11 * 60))
    ∷ (codes "M", pos (12 * 60))
    ∷ (codes "MDT", negate (6 * 60))
    ∷ (codes "MESZ", pos (2 * 60))
    ∷ (codes "MEZ", pos (60 * 60))
    ∷ (codes "MSD", pos (4 * 60))
    ∷ (codes "MSK", pos (3 * 60))
    ∷ (codes "MST", negate (7 * 60))
    ∷ (codes "N", negate (1 * 60))
    ∷ (codes "NDT", negate ((2 * 60 + 30) * 60))
    ∷ (codes "NFT", pos ((11 * 60 + 30) * 60))
    ∷ (codes "NST", negate ((3 * 60 + 30) * 60))
    ∷ (codes "O", negate (2 * 60))
    ∷ (codes "P", negate (3 * 60))
    ∷ (codes "PDT", negate (7 * 60))
    ∷ (codes "PST", negate (8 * 60))
    ∷ (codes "Q", negate (4 * 60))
    ∷ (codes "R", negate (5 * 60))
    ∷ (codes "S", negate (6 * 60))
    ∷ (codes "T", negate (7 * 60))
    ∷ (codes "U", negate (8 * 60))
    ∷ (codes "UTC", pos 0)
    ∷ (codes "V", negate (9 * 60))
    ∷ (codes "W", negate (10 * 60))
    ∷ (codes "WDT", pos (9 * 60))
    ∷ (codes "WEDT", pos (60 * 60))
    ∷ (codes "WEST", pos (60 * 60))
    ∷ (codes "WET", pos 0)
    ∷ (codes "WST", pos (9 * 60))
    ∷ (codes "WST", pos (8 * 60))
    ∷ (codes "X", negate (11 * 60))
    ∷ (codes "Y", negate (12 * 60))
    ∷ (codes "Z", pos 0)
    ∷ []

-- `timezones[name] = offset` for each, so that a later assignment of a name takes the place of the first.
unfoldable pub assign : List (Bytes × ℤ) → List (Bytes × ℤ) → List (Bytes × ℤ)
assign [] m = m
assign ((name, offset) ∷ more) m = assign more (insert name offset m)

-- `Timezones::zones`.
unfoldable pub zones : List (Bytes × ℤ)
unfolding assign
zones = assign assignments []

-- `exists` and `operator[]`.
unfoldable pub zone : Bytes → Option ℤ
unfolding zones
zone name = lookup name zones
