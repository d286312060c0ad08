-- ===== src/Property/Counts.antt =====
-- What the counters of a property say.
use nntp_tools.Prelude.{
  ℕ, ◌+◌, ◌≡◌, refl, ap, ◌∙◌, Bool, true, false, not, ◌||◌, ◌&&◌, List, [], ◌∷◌, some, Bytes,
  length, equal, equal_iff, if◌then◌else◌, arith, Bool-cases, inl, inr,
}
use nntp_tools.Text.{lookup, lookup-insert}
use nntp_tools.Property.{
  PropertyValue, Values, fresh, contains, insert_sender, add_sender, found, update,
}

-- The articles of a spool, each with the value of the property and its sender, the last first.
unfoldable pub update_all : List (Bytes × Bytes) → Values
update_all [] = []
update_all ((value, sender) ∷ articles) = update value sender (update_all articles)

-- How many articles have a value, and whether one of them is by a sender.
pub articles_with : Bytes → List (Bytes × Bytes) → ℕ
articles_with w [] = 0
articles_with w ((value, sender) ∷ articles) =
    (if equal value w then 1 else 0) + articles_with w articles

pub sends : Bytes → Bytes → List (Bytes × Bytes) → Bool
sends w s [] = false
sends w s ((value, sender) ∷ articles) = (equal value w && equal sender s) || sends w s articles

-- No sender is in the list twice.
pub distinct : List Bytes → Bool
distinct [] = true
distinct (s ∷ ss) = not (contains s ss) && distinct ss

pub contains-insert_sender :
    (s t : Bytes) (ts : List Bytes) → contains t (insert_sender s ts) ≡ (equal s t || contains t ts)
unfolding insert_sender contains
contains-insert_sender s t ts = elim (Bool-cases (contains s ts)) [
  | inl there ↦ elim (Bool-cases (equal s t)) [
    | inl same ↦
        let e : s ≡ t = (equal_iff s t).0 same in
        rw (there, insert_sender) (rw same (rw e at there))
    | inr other ↦ rw (there, insert_sender) (rw other refl)
  ]
  | inr new ↦ rw (new, insert_sender) refl
]

distinct-insert_sender :
    (s : Bytes) (ts : List Bytes) → distinct ts ≡ true → distinct (insert_sender s ts) ≡ true
unfolding insert_sender distinct
distinct-insert_sender s ts h = ground (arith, h)

-- One update, seen at each value.
found-update :
    (value sender w : Bytes) (m : Values)
    → found (lookup w (update value sender m)) ≡ (
        if equal value w
        then add_sender sender
            (record (found (lookup w m)) { articles = (found (lookup w m)).articles + 1 })
        else found (lookup w m))
unfolding update
found-update value sender w m =
    let counted : Bytes → PropertyValue = λ k.
      add_sender sender
        (record (found (lookup k m)) { articles = (found (lookup k m)).articles + 1 }) in
    ap found (lookup-insert value w (counted value) m) ∙ branch counted
  where
    branch :
        (counted : Bytes → PropertyValue)
        → found (if equal value w then some (counted value) else lookup w m)
          ≡ (if equal value w then counted w else found (lookup w m))
    branch counted = elim (Bool-cases (equal value w)) [
      | inl same ↦
          let e : value ≡ w = (equal_iff value w).0 same in rw same (unfold found in ap counted e)
      | inr other ↦ rw other refl
    ]

-- What the map says of the articles that have been counted.
pub record IsCount (articles : List (Bytes × Bytes)) (w : Bytes) (v : PropertyValue) : Type 0 where
  pub number : v.articles ≡ articles_with w articles
  pub by : (s : Bytes) → contains s v.senders ≡ sends w s articles
  pub once : distinct v.senders ≡ true
  pub counted : v.sender_count ≡ length v.senders

IsCount-fresh : (w : Bytes) → IsCount [] w fresh
IsCount-fresh w = record {
  number = unfold articles_with in refl;
  by = λ s. unfold contains sends in refl;
  once = unfold distinct in refl;
  counted = refl;
}

IsCount-add :
    (value sender w : Bytes) (articles : List (Bytes × Bytes)) (v : PropertyValue)
    → equal value w ≡ true
    → IsCount articles w v
    → IsCount
        ((value, sender) ∷ articles)
        w
        (add_sender sender (record v { articles = v.articles + 1 }))
IsCount-add value sender w articles v same i = record {
  number = unfold add_sender articles_with in rw same (omega (arith, i.number));
  by = λ s.
      unfold add_sender sends in
      rw same (contains-insert_sender sender s v.senders ∙ ap (λ b. equal sender s || b) (i.by s));
  once = unfold add_sender in distinct-insert_sender sender v.senders i.once;
  counted = unfold add_sender in refl;
}

IsCount-other :
    (value sender w : Bytes) (articles : List (Bytes × Bytes)) (v : PropertyValue)
    → equal value w ≡ false
    → IsCount articles w v
    → IsCount ((value, sender) ∷ articles) w v
IsCount-other value sender w articles v other i = record {
  number = unfold articles_with in rw other (omega (arith, i.number));
  by = λ s. unfold sends in rw other (i.by s);
  once = i.once;
  counted = i.counted;
}

-- After any articles, the entry of each value has the number of articles with that value, exactly
-- their senders, each once, and the number of those senders.
pub update_all-IsCount :
    (articles : List (Bytes × Bytes)) (w : Bytes)
    → IsCount articles w (found (lookup w (update_all articles)))
unfolding update_all
update_all-IsCount [] w = unfold lookup found in IsCount-fresh w
update_all-IsCount ((value, sender) ∷ articles) w =
    let i = update_all-IsCount articles w in
    rw (found-update value sender w (update_all articles)) (elim (Bool-cases (equal value w)) [
      | inl same ↦ rw same (IsCount-add value sender w articles _ same i)
      | inr other ↦ rw other (IsCount-other value sender w articles _ other i)
    ])
