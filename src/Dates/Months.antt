-- ===== src/Dates/Months.antt =====
-- The names of the months in dates of articles, lib/parse_date.cc.
use mathlib.Core.List.{map}
use nntp_tools.Prelude.{
  ℕ, zero, suc, ◌<◌, ◌≡◌, refl, ap, ◌∙◌, List, [], ◌∷◌, none, some, get_elem?, Bytes, codes, equal,
  ok, failed, arith,
}
use nntp_tools.Text.{to_lower}
use nntp_tools.Dates.{month, month_from, months, bad_month_lookup}

-- The names of the months, from 0 on.
names : List Bytes
names =
    codes "jan"
    ∷ codes "feb"
    ∷ codes "mar"
    ∷ codes "apr"
    ∷ codes "may"
    ∷ codes "jun"
    ∷ codes "jul"
    ∷ codes "aug"
    ∷ codes "sep"
    ∷ codes "oct"
    ∷ codes "nov"
    ∷ codes "dec"
    ∷ []

unfoldable pub month_name : ℕ → Bytes
unfolding names
month_name n = elim (get_elem? names n) [ none ↦ [] | some name ↦ name ]

month_from-name : (n : ℕ) → n < 12 → month_from 0 months (month_name n) ≡ ok n
unfolding month_from month_name names equal
month_from-name zero h = refl
month_from-name (suc zero) h = refl
month_from-name (suc (suc zero)) h = refl
month_from-name (suc (suc (suc zero))) h = refl
month_from-name (suc (suc (suc (suc zero)))) h = refl
month_from-name (suc (suc (suc (suc (suc zero))))) h = refl
month_from-name (suc (suc (suc (suc (suc (suc zero)))))) h = refl
month_from-name (suc (suc (suc (suc (suc (suc (suc zero))))))) h = refl
month_from-name (suc (suc (suc (suc (suc (suc (suc (suc zero)))))))) h = refl
month_from-name (suc (suc (suc (suc (suc (suc (suc (suc (suc zero))))))))) h = refl
month_from-name (suc (suc (suc (suc (suc (suc (suc (suc (suc (suc zero)))))))))) h = refl
month_from-name (suc (suc (suc (suc (suc (suc (suc (suc (suc (suc (suc zero))))))))))) h = refl
month_from-name (suc (suc (suc (suc (suc (suc (suc (suc (suc (suc (suc (suc n)))))))))))) h =
    absurd (omega (arith, h))

month_name-known :
    (c : ℕ) (word : Bytes) (mon : ℕ)
    → mon < 12
    → map to_lower (c ∷ word) ≡ month_name mon
    → month_from 0 months (map to_lower (c ∷ word)) ≡ ok mon
month_name-known c word mon h e = ap (month_from 0 months) e ∙ month_from-name mon h

pub month_known :
    (word : Bytes) (mon : ℕ) → mon < 12 → map to_lower word ≡ month_name mon → month word ≡ ok mon
unfolding month month_from equal
month_known [] mon h e =
    let found : failed bad_month_lookup ≡ ok mon =
      ap (month_from 0 months) e ∙ month_from-name mon h in
    absurd (cc found)
month_known (c ∷ word) mon h e = month_name-known c word mon h e
