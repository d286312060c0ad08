-- ===== src/Sources/Counts.antt =====
-- What the entries of sources/sources.cc count.
use nntp_tools.Prelude.{
  ℕ, suc, ◌+◌, ◌%◌, ◌^◌, ◌<◌, ◌≤◌, ◌≡◌, ◌⊎◌, refl, ap, ◌∙◌, true, false, ◌&&◌, List, [], ◌∷◌, some,
  Bytes, All, equal, equal_iff, leb, ◌==◌, if◌then◌else◌, arith, Bool-cases, inl, inr,
}
use nntp_tools.Prelude.Int.{ℤ}
use nntp_tools.Text.{lookup, insert}
use nntp_tools.Sources.{Details, is_accepted}
use nntp_tools.Sources.Entries.{
  articles_at, articles_in, AreMaps, bump-some, articles_in-insert, insert-AreMaps,
  articles_at-replicate,
}
use nntp_tools.Sources.Maps.{
  Entry, State, is_before, open_map, path_of, bucket, update_timestamp, time_of, later, count_down,
  process_accepted, process_line, process_details, insert_day, day_of,
}

-- A time of day that `mktime` has normalised.
unfoldable pub IsNormal : Details → Type 0
IsNormal d = (d.when.hour ≤ 23) × (d.when.min ≤ 59)

-- Of a log, the records that are counted: accepted, and not older than the latest one that was counted.
unfoldable pub counted : ℤ × ℕ → List Details → List Details
counted latest [] = []
counted latest (d ∷ ds) =
    let rest = counted latest ds in
    let more = counted (later d latest) ds in
    if is_before (time_of d) latest then rest else if is_accepted d.code then d ∷ more else rest

-- How many of them are of a file and a minute.
unfoldable pub tally : Bytes → Bytes → ℕ → List Details → ℕ
tally state path i [] = 0
tally state path i (d ∷ ds) =
    let rest = tally state path i ds in
    if equal (path_of state d) path && bucket d == i then suc rest else rest

bucket-lt : (d : Details) → IsNormal d → bucket d < 1440
unfolding IsNormal bucket
bucket-lt d (h, m) = omega arith

count_down-maps : (s : State) → ((count_down s).maps ≡ s.maps) × ((count_down s).latest ≡ s.latest)
unfolding count_down update_timestamp
count_down-maps s = elim (Bool-cases (leb 32 (suc (s.counter)))) [
  | inl due ↦ (rw (due) refl, rw (due) refl)
  | inr early ↦ (rw (early) refl, rw (early) refl)
]

-- What an accepted article does to the count of a file and a minute.
abbrev counted_once : Bytes → Details → List (Bytes × List Entry) → Bytes → ℕ → ℕ
counted_once state d maps p j =
    if equal (path_of state d) p && bucket d == j
    then (articles_in maps p j + 1) % 2 ^ 64
    else articles_in maps p j

record Counted (state : Bytes) (d : Details) (s : State) : Type 0 where
  after : State
  returns : process_accepted state d s ≡ some after
  moves : after.latest ≡ later d s.latest
  are_maps : AreMaps after.maps
  counts : (p : Bytes) (j : ℕ) → articles_in after.maps p j ≡ counted_once state d s.maps p j

counted_once-insert :
    (state : Bytes) (d : Details) (maps : List (Bytes × List Entry)) (fs : List Entry)
    → ((j : ℕ)
        → articles_at fs j ≡ (
            if bucket d == j
            then (articles_in maps (path_of state d) j + 1) % 2 ^ 64
            else articles_in maps (path_of state d) j))
    → (p : Bytes) (j : ℕ)
    → articles_in (insert (path_of state d) fs maps) p j ≡ counted_once state d maps p j
counted_once-insert state d maps fs h p j =
    articles_in-insert (path_of state d) p fs maps j
    ∙ elim (Bool-cases (equal (path_of state d) p)) [
      | inr other ↦ rw (other) refl
      | inl same ↦ rw (same) (
          h j
          ∙ ap
              (λ q.
                if bucket d == j then (articles_in maps q j + 1) % 2 ^ 64 else articles_in maps q j)
              ((equal_iff (path_of state d) p).0 same))
    ]

process_accepted-Counted :
    (state : Bytes) (d : Details) (s : State) → IsNormal d → AreMaps s.maps → Counted state d s
unfolding process_accepted AreMaps articles_in
process_accepted-Counted state d s n k =
    let path = path_of state d in
    let (fs, bumped, len, counts) =
      bump-some (open_map path s.maps) (bucket d) d.size (k path) (bucket-lt d n) in
    let next = record s { maps = insert path fs s.maps; latest = later d s.latest } in
    let (same_maps, same_latest) = count_down-maps next in
    record {
      after = record (count_down next) { days = insert_day (day_of d) (count_down next).days };
      returns = rw (bumped) refl;
      moves = same_latest;
      are_maps = rw (same_maps) (insert-AreMaps path fs s.maps len k);
      counts = λ p j. rw (same_maps) (counted_once-insert state d s.maps fs counts p j);
    }

-- Counters that fit their 64 bits.
unfoldable pub Fit : List (Bytes × List Entry) → Type 0
Fit maps = (p : Bytes) (j : ℕ) → articles_in maps p j < 2 ^ 64

counted_once-lt :
    (state : Bytes) (d : Details) (maps : List (Bytes × List Entry)) (p : Bytes) (j : ℕ)
    → articles_in maps p j < 2 ^ 64
    → counted_once state d maps p j < 2 ^ 64
counted_once-lt state d maps p j h = ground (arith, h)

tally-step :
    (state : Bytes) (d : Details) (ds : List Details) (maps : List (Bytes × List Entry)) (p : Bytes)
    (j : ℕ)
    → (counted_once state d maps p j + tally state p j ds) % 2 ^ 64
      ≡ (articles_in maps p j + tally state p j (d ∷ ds)) % 2 ^ 64
unfolding tally
tally-step state d ds maps p j = elim (Bool-cases (equal (path_of state d) p && bucket d == j)) [
  | inl here ↦ rw (here) (omega arith)
  | inr other ↦ rw (other) refl
]

process_line-early :
    (state : Bytes) (d : Details) (s : State)
    → is_before (time_of d) s.latest ≡ true
    → process_line state d s ≡ some s
unfolding process_line
process_line-early state d s h = rw (h) refl

process_line-other :
    (state : Bytes) (d : Details) (s : State)
    → is_before (time_of d) s.latest ≡ false
    → is_accepted d.code ≡ false
    → process_line state d s ≡ some s
unfolding process_line
process_line-other state d s h a = rw (h, a) refl

process_line-accepted :
    (state : Bytes) (d : Details) (s : State)
    → is_before (time_of d) s.latest ≡ false
    → is_accepted d.code ≡ true
    → process_line state d s ≡ process_accepted state d s
unfolding process_line
process_line-accepted state d s h a = rw (h, a) refl

counted-skip :
    (latest : ℤ × ℕ) (d : Details) (ds : List Details)
    → (is_before (time_of d) latest ≡ true) ⊎ (is_accepted d.code ≡ false)
    → counted latest (d ∷ ds) ≡ counted latest ds
unfolding counted
counted-skip latest d ds (inl h) = rw (h) refl
counted-skip latest d ds (inr h) = elim (Bool-cases (is_before (time_of d) latest)) [
  | inl e ↦ rw (e) refl
  | inr e ↦ rw (e, h) refl
]

counted-accepted :
    (latest : ℤ × ℕ) (d : Details) (ds : List Details)
    → is_before (time_of d) latest ≡ false
    → is_accepted d.code ≡ true
    → counted latest (d ∷ ds) ≡ d ∷ counted (later d latest) ds
unfolding counted
counted-accepted latest d ds h a = rw (h, a) refl

-- A log whose times `mktime` has normalised is processed without a write outside of a map, and every entry
-- of every file has grown, in 64 bits, by the number of accepted records of its file and minute that are
-- not older than the latest record counted before them.
pub process_details-counts :
    (state : Bytes) (ds : List Details) (s : State)
    → All IsNormal ds
    → AreMaps s.maps
    → Fit s.maps
    → (t : State) × (process_details state ds s ≡ some t)
      × ((p : Bytes) (j : ℕ)
          → articles_in t.maps p j
            ≡ (articles_in s.maps p j + tally state p j (counted s.latest ds)) % 2 ^ 64)
unfolding process_details Fit
process_details-counts state [] s _ k f =
    (s, refl, λ p j. unfold counted tally in omega (arith, f p j))
process_details-counts state (d ∷ ds) s (n, ns) k f =
    elim (Bool-cases (is_before (time_of d) s.latest)) [
      | inl early ↦
          let (t, runs, counts) = process_details-counts state ds s ns k f in
          (
            t,
            rw (process_line-early state d s early) runs,
            λ p j. rw (counted-skip s.latest d ds (inl early)) (counts p j),
          )
      | inr current ↦ elim (Bool-cases (is_accepted d.code)) [
        | inr other ↦
            let (t, runs, counts) = process_details-counts state ds s ns k f in
            (
              t,
              rw (process_line-other state d s current other) runs,
              λ p j. rw (counted-skip s.latest d ds (inr other)) (counts p j),
            )
        | inl taken ↦
            let c = process_accepted-Counted state d s n k in
            let fits : Fit c.after.maps =
              λ p j. rw (c.counts p j) (counted_once-lt state d s.maps p j (f p j)) in
            let (t, runs, counts) = process_details-counts state ds c.after ns c.are_maps fits in
            let step : process_line state d s ≡ some c.after =
              process_line-accepted state d s current taken ∙ c.returns in
            (
              t,
              rw (step) runs,
              λ p j.
                  counts p j
                  ∙ rw (c.counts p j, c.moves, counted-accepted s.latest d ds current taken)
                      (tally-step state d (counted (later d s.latest) ds) s.maps p j),
            )
      ]
    ]

-- New files count nothing.
pub nil-Fit : Fit []
unfolding Fit articles_in open_map lookup
nil-Fit p j = omega (arith, articles_at-replicate 1440 j)
