-- ===== src/Spool/Distinct.antt =====
-- The totals of spoolstats/AllGroups.cc: each message id counts once.
use mathlib.Core.List.{map}
use nntp_tools.Prelude.{
  ℕ, suc, ◌+◌, ◌<◌, ◌≤◌, ◌≡◌, ◌≢◌, refl, ap, Bool, true, false, not, ◌&&◌, List, [], ◌∷◌, Option,
  none, some, Bytes, codes, Result, ok, ◌>>=◌, Bool-cases, Option-cases, inl, inr, ◌⊎◌,
  if◌then◌else◌, arith, length,
}
use nntp_tools.Prelude.Int.{ℤ, is_less}
use nntp_tools.Text.{lookup}
use nntp_tools.Property.{contains}
use nntp_tools.Article.{Headers, valid}
use nntp_tools.Dates.{Tm, parse_date}
use nntp_tools.Spool.{
  AllGroups, Fault, visit_all, in_range, visit_new, visit_dated, visit_headers, visit, visit_groups,
}
use nntp_tools.Spool.Validity.{
  need-ok, valid-from, valid-date, valid-mid, groups-ok, at_least, is_less-at_least,
}
use nntp_tools.Spool.Reading.{headers_of, parse-headers_of}

-- A file, whose headers name groups if they are valid.
pub record Readable : Type 0 where
  pub file : Bytes
  pub size : ℕ
  pub has_groups :
      valid (headers_of file) ≡ true → lookup (codes "newsgroups") (headers_of file) ≢ none

unfoldable pub total : List ℕ → ℕ
total [] = 0
total (n ∷ ns) = n + total ns

abbrev pub is_new : Option Bytes → List Bytes → Bool
is_new none seen = false
is_new (some mid) seen = not (contains mid seen)

abbrev pub extend : Option Bytes → List Bytes → List Bytes
extend none seen = seen
extend (some mid) seen = if contains mid seen then seen else mid ∷ seen

module _ (sort : List Bytes → List Bytes) (timegm : Tm → ℤ)
    (start_time end_time start_mtime : ℤ) where
  -- One file after the other.
  unfoldable pub visit_each : List Readable → AllGroups → Result Fault AllGroups
  visit_each [] s = ok s
  visit_each (r ∷ rs) s =
      visit sort timegm start_time end_time start_mtime r.file r.size s >>= λ (t, used).
      visit_each rs t

  -- From the start of the sampled range on, and before its end.
  unfoldable pub is_sampled : ℤ → Bool
  is_sampled date = at_least start_time date && is_less date end_time

  in_range-is_sampled :
      (date : ℤ) → in_range sort timegm start_time end_time start_mtime date ≡ is_sampled date
  unfolding in_range is_sampled
  in_range-is_sampled date = rw (is_less-at_least date start_time) refl

  -- What the sender, the date and the message id make of an article.
  unfoldable pub id_from : Option Bytes → Option Bytes → Option Bytes → Option Bytes
  id_from none date mid = none
  id_from (some sender) none mid = none
  id_from (some sender) (some date) mid = if is_sampled (parse_date timegm date) then mid else none

  -- The message id of an article that counts: it has the three headers, and its date is sampled.
  unfoldable pub id_of : Headers → Option Bytes
  id_of h =
      id_from (lookup (codes "from") h) (lookup (codes "date") h) (lookup (codes "message-id") h)

  -- The sizes of the articles that count, the first of each message id.
  unfoldable pub new_sizes : List Bytes → List Readable → List ℕ
  new_sizes seen [] = []
  new_sizes seen (r ∷ rs) =
      let mid = id_of (headers_of r.file) in
      let rest = new_sizes (extend mid seen) rs in if is_new mid seen then r.size ∷ rest else rest

  -- No more articles and bytes than there are files.
  pub length-new_sizes :
      (seen : List Bytes) (rs : List Readable) → length (new_sizes seen rs) ≤ length rs
  unfolding new_sizes
  length-new_sizes seen [] = omega arith
  length-new_sizes seen (r ∷ rs) =
      let mid = id_of (headers_of r.file) in
      let fewer = length-new_sizes (extend mid seen) rs in
      elim (Bool-cases (is_new mid seen)) [
        | inl fresh ↦ rw (fresh) (omega (arith, fewer))
        | inr old ↦ rw (old) (omega (arith, fewer))
      ]

  pub total-new_sizes :
      (seen : List Bytes) (rs : List Readable)
      → total (new_sizes seen rs) ≤ total (map (λ r. r.size) rs)
  unfolding new_sizes total
  total-new_sizes seen [] = omega arith
  total-new_sizes seen (r ∷ rs) =
      let mid = id_of (headers_of r.file) in
      let fewer = total-new_sizes (extend mid seen) rs in
      elim (Bool-cases (is_new mid seen)) [
        | inl fresh ↦ rw (fresh) (omega (arith, fewer))
        | inr old ↦ rw (old) (omega (arith, fewer))
      ]

  abbrev run : Headers → ℕ → AllGroups → Result Fault (AllGroups × Bool)
  run = visit_headers sort timegm start_time end_time start_mtime

  visit-headers :
      (r : Readable) (s : AllGroups)
      → visit sort timegm start_time end_time start_mtime r.file r.size s
        ≡ run (headers_of r.file) r.size s
  unfolding visit
  visit-headers r s = rw (parse-headers_of r.file, visit) refl

  abbrev new : Headers → Bytes → ℕ → AllGroups → Result Fault (AllGroups × Bool)
  new = visit_new sort timegm start_time end_time start_mtime

  id_from-none : (sender date : Option Bytes) → id_from sender date none ≡ none
  unfolding id_from
  id_from-none none date = refl
  id_from-none (some sender) none = refl
  id_from-none (some sender) (some date) = ground arith

  id_from-undated : (sender mid : Option Bytes) → id_from sender none mid ≡ none
  unfolding id_from
  id_from-undated none mid = refl
  id_from-undated (some sender) mid = refl

  id_of-invalid : (h : Headers) → valid h ≡ false → id_of h ≡ none
  unfolding id_of id_from valid
  id_of-invalid h v = elim (Option-cases (lookup (codes "from") h)) [
    | inl e ↦ rw (e) refl
    | inr (f, e) ↦ elim (Option-cases (lookup (codes "date") h)) [
      | inl k ↦ rw (k) (id_from-undated (lookup (codes "from") h) (lookup (codes "message-id") h))
      | inr (date, k) ↦ elim (Option-cases (lookup (codes "message-id") h)) [
        | inl m ↦ rw (m) (id_from-none (lookup (codes "from") h) (lookup (codes "date") h))
        | inr (mid, m) ↦ absurd (ground (arith, v, e, k, m))
      ]
    ]
  ]

  -- An article either does not count and changes nothing, or it does unless its id has been seen.
  judge :
      (h : Headers)
      → ((id_of h ≡ none) × ((size : ℕ) (s : AllGroups) → run h size s ≡ ok (s, false)))
        ⊎ ((mid : Bytes) × (id_of h ≡ some mid)
            × (valid h ≡ true)
            × ((size : ℕ) (s : AllGroups)
                → run h size s ≡ (if contains mid s.seen then ok (s, false) else new h mid size s)))
  unfolding visit_headers visit_dated id_of id_from
  judge h = elim (Bool-cases (valid h)) [
    | inr invalid ↦ inl (id_of-invalid h invalid, λ size s. rw (invalid) refl)
    | inl v ↦
        let (sender, f) = valid-from h v in
        let (date, d) = valid-date h v in
        let (mid, m) = valid-mid h v in
        let need_date = need-ok h (codes "date") date d in
        let need_mid = need-ok h (codes "message-id") mid m in
        let same = in_range-is_sampled (parse_date timegm date) in
        elim (Bool-cases (is_sampled (parse_date timegm date))) [
          | inr outside ↦
              inl
                (rw (f, d, outside, id_from) refl, λ size s. rw (v, need_date, same, outside) refl)
          | inl inside ↦ inr (
            mid,
            rw (f, d, m, inside, id_from) refl,
            v,
            λ size s. rw (v, need_date, same, inside, need_mid) refl,
          )
        ]
  ]

  record Counted (r : Readable) (s : AllGroups) (mid : Bytes) : Type 0 where
    after : AllGroups
    used : Bool
    returns : new (headers_of r.file) mid r.size s ≡ ok (after, used)
    articles : after.articles ≡ suc (s.articles)
    bytes : after.bytes ≡ s.bytes + r.size
    seen : after.seen ≡ mid ∷ s.seen

  new-Counted :
      (r : Readable) (s : AllGroups) (mid : Bytes)
      → valid (headers_of r.file) ≡ true
      → s.articles + 1 < 2147483648
      → s.bytes + r.size < 9223372036854775808
      → Counted r s mid
  unfolding visit_new visit_all
  new-Counted r s mid v few small =
      let h = headers_of r.file in
      let (sender, f) = valid-from h v in
      let (groups, g) = groups-ok h (r.has_groups v) in
      let t = visit_all h sender r.size (record s { seen = mid ∷ s.seen }) in
      let (hs, used) = visit_groups none none (sort groups) sender r.size t.hierarchies in
      record {
        after = record t { hierarchies = hs };
        used = used;
        returns = rw (need-ok h (codes "from") sender f, g) refl;
        articles = omega (arith, few);
        bytes = omega (arith, small);
        seen = refl;
      }

  new_sizes-none :
      (r : Readable) (rs : List Readable) (seen : List Bytes)
      → id_of (headers_of r.file) ≡ none
      → new_sizes seen (r ∷ rs) ≡ new_sizes seen rs
  unfolding new_sizes
  new_sizes-none r rs seen e = rw (e) refl

  new_sizes-old :
      (r : Readable) (rs : List Readable) (seen : List Bytes) (mid : Bytes)
      → id_of (headers_of r.file) ≡ some mid
      → contains mid seen ≡ true
      → new_sizes seen (r ∷ rs) ≡ new_sizes seen rs
  unfolding new_sizes
  new_sizes-old r rs seen mid e old = rw (e, old) refl

  new_sizes-new :
      (r : Readable) (rs : List Readable) (seen : List Bytes) (mid : Bytes)
      → id_of (headers_of r.file) ≡ some mid
      → contains mid seen ≡ false
      → new_sizes seen (r ∷ rs) ≡ r.size ∷ new_sizes (mid ∷ seen) rs
  unfolding new_sizes
  new_sizes-new r rs seen mid e fresh = rw (e, fresh) refl

  -- Visiting files whose valid articles have Newsgroups returns, as long as the counts stay in the ranges
  -- of an `int` and an `intmax_t`; the count of articles and that of bytes grow by the articles that have
  -- the headers Message-ID, Date and From and a date from the start of the sampled range on and before its
  -- end, the first of each message id that has not been seen.
  pub visit_each-distinct :
      (rs : List Readable) (s : AllGroups)
      → s.articles + length (new_sizes s.seen rs) < 2147483648
      → s.bytes + total (new_sizes s.seen rs) < 9223372036854775808
      → (t : AllGroups) × (visit_each rs s ≡ ok t)
        × (t.articles ≡ s.articles + length (new_sizes s.seen rs))
        × (t.bytes ≡ s.bytes + total (new_sizes s.seen rs))
  unfolding visit_each total
  visit_each-distinct [] s few small =
      (s, refl, unfold new_sizes in omega arith, unfold new_sizes in omega arith)
  visit_each-distinct (r ∷ rs) s few small = elim (judge (headers_of r.file)) [
    | inl (skipped, stays) ↦
        let same = new_sizes-none r rs s.seen skipped in
        let (t, runs, articles, bytes) =
          visit_each-distinct rs s (omega (arith, few, ap length same))
            (omega (arith, small, ap total same)) in
        (
          t,
          rw (visit-headers r s, stays r.size s) runs,
          omega (arith, articles, ap length same),
          omega (arith, bytes, ap total same),
        )
    | inr (mid, known_id, v, acts) ↦ elim (Bool-cases (contains mid s.seen)) [
      | inl old ↦
          let same = new_sizes-old r rs s.seen mid known_id old in
          let (t, runs, articles, bytes) =
            visit_each-distinct rs s (omega (arith, few, ap length same))
              (omega (arith, small, ap total same)) in
          (
            t,
            rw (visit-headers r s, acts r.size s, old) runs,
            omega (arith, articles, ap length same),
            omega (arith, bytes, ap total same),
          )
      | inr fresh ↦
          let split = new_sizes-new r rs s.seen mid known_id fresh in
          let c =
            new-Counted r s mid v (omega (arith, few, ap length split))
              (omega (arith, small, ap total split)) in
          let sizes = ap (λ seen. new_sizes seen rs) c.seen in
          let (t, runs, articles, bytes) =
            visit_each-distinct rs c.after
              (omega (arith, few, ap length split, c.articles, ap length sizes))
              (omega (arith, small, ap total split, c.bytes, ap total sizes)) in
          (
            t,
            rw (visit-headers r s, acts r.size s, fresh, c.returns) runs,
            omega (arith, articles, c.articles, ap length sizes, ap length split),
            omega (arith, bytes, c.bytes, ap total sizes, ap total split),
          )
    ]
  ]
