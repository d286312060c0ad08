-- ===== src/Seen/History.antt =====
-- A run of the program: any sequence of calls of `remember` on an empty tracking file.
use nntp_tools.Prelude.{
  ◌+◌, ◌*◌, ◌^◌, ◌<◌, ◌≡◌, refl, ap, ◌∙◌, inl, inr, Bool, false, ◌||◌, List, [], ◌∷◌, Bytes, length,
  All, Result, ok, ◌>>=◌, equal, equal_iff, Bool-cases, arith,
}
use nntp_tools.Seen.{Fault, seen, remember}
use nntp_tools.Seen.Calls.{IsCommit, seen-nil}
use nntp_tools.Seen.Set.{IsTracking, nil-IsTracking, Remembered, remember-Remembered}

-- The commits of a run, one `remember` after the other.
pub remember_all : Bytes → List Bytes → Result Fault Bytes
remember_all file [] = ok file
remember_all file (c ∷ cs) = remember file c >>= λ f. remember_all f cs

unfoldable pub contains : List Bytes → Bytes → Bool
contains [] d = false
contains (c ∷ cs) d = equal d c || contains cs d

pub seen-after :
    (file commit d : Bytes) {b : Bool} (r : Remembered file commit)
    → seen file d ≡ ok b
    → seen r.after d ≡ ok (b || equal d commit)
seen-after file commit d {b} r before = elim (Bool-cases (equal d commit)) [
  | inl same ↦
      let e = (equal_iff d commit).0 same in
      ap (seen r.after) e ∙ (r.added ∙ ap (λ x. ok x) (rw same (ground arith)))
  | inr other ↦
      r.others d (λ e. cc (other, (equal_iff d commit).1 e))
      ∙ (before ∙ ap (λ x. ok x) (rw other (ground arith)))
]

seen-remember_from :
    (file : Bytes) (cs : List Bytes) (d : Bytes) {b : Bool}
    → IsTracking file
    → All IsCommit cs
    → length file + 64 * length cs < 2 ^ 63
    → seen file d ≡ ok b
    → (after : Bytes) × (remember_all file cs ≡ ok after) × (seen after d ≡ ok (b || contains cs d))
unfolding remember_all contains
seen-remember_from file [] d k _ room before = (file, refl, before ∙ ap (λ x. ok x) (ground arith))
seen-remember_from file (c ∷ cs) d {b} k (h, hs) room before =
    let r = remember-Remembered file c k h (omega arith) in
    let (after, runs, answer) =
      seen-remember_from r.after cs d r.tracking hs (omega (arith, r.size))
        (seen-after file c d r before) in
    (after, rw r.returns runs, answer ∙ ap (λ x. ok x) (ground arith))

-- From the empty file, after any sequence of commit ids has been remembered (repeats allowed, and few
-- enough for the file to stay below 2 ^ 63 bytes), `seen` answers for every string whether it is one
-- of them; nothing on the way calls `fatal`.
pub seen-remember_all :
    (cs : List Bytes) (d : Bytes)
    → All IsCommit cs
    → 64 * length cs < 2 ^ 63
    → (file : Bytes) × (remember_all [] cs ≡ ok file) × (seen file d ≡ ok (contains cs d))
seen-remember_all cs d hs room =
    seen-remember_from [] cs d nil-IsTracking hs (omega arith) (seen-nil d)
