-- ===== src/Property/Summary.antt =====
-- What `summarize` adds up.
use mathlib.Core.Path.{subst}
use nntp_tools.Prelude.{
  ℕ, ◌+◌, ◌≡◌, refl, ap, ◌∙◌, Bool, true, false, ◌||◌, ◌&&◌, List, [], ◌∷◌, some, Bytes, equal,
  equal_iff, if◌then◌else◌, arith, Bool-cases, inl, inr,
}
use nntp_tools.Text.{lookup, insert, lookup-insert}
use nntp_tools.Property.{
  PropertyValue, Values, contains, insert_sender, found, insert_senders, plus, summarize,
}
use nntp_tools.Property.Counts.{contains-insert_sender}

-- The sum of a number over the values whose summary is `name`.
pub total : (PropertyValue → ℕ) → (Bytes → Bytes) → Bytes → Values → ℕ
total number summarizer name [] = 0
total number summarizer name ((value, v) ∷ values) =
    (if equal (summarizer value) name then number v else 0) + total number summarizer name values

-- Whether one of these values has the sender.
pub some_has : Bytes → (Bytes → Bytes) → Bytes → Values → Bool
some_has s summarizer name [] = false
some_has s summarizer name ((value, v) ∷ values) =
    (equal (summarizer value) name && contains s v.senders) || some_has s summarizer name values

or_shuffle : (a b c : Bool) → (a || (b || c)) ≡ ((b || a) || c)
or_shuffle true b c = ground arith
or_shuffle false b c = ground arith

or_turn : (a b c : Bool) → ((a || b) || c) ≡ (b || (a || c))
or_turn true b c = ground arith
or_turn false b c = ground arith

or_false : (a : Bool) → a ≡ (a || false)
or_false true = refl
or_false false = refl

contains-insert_senders :
    (s : Bytes) (ss ts : List Bytes)
    → contains s (insert_senders ss ts) ≡ (contains s ss || contains s ts)
unfolding insert_senders
contains-insert_senders s [] ts = unfold contains in refl
contains-insert_senders s (t ∷ ss) ts =
    contains-insert_senders s ss (insert_sender t ts)
    ∙ (ap (λ b. contains s ss || b) (contains-insert_sender t s ts)
        ∙ (unfold contains in or_shuffle (contains s ss) (equal t s) (contains s ts)))

-- One round of the loop, seen at each name.
found-plus :
    (name key : Bytes) (v : PropertyValue) (dest : Values)
    → found (lookup name (insert key (plus (found (lookup key dest)) v) dest))
      ≡ (if equal key name then plus (found (lookup name dest)) v else found (lookup name dest))
found-plus name key v dest =
    ap found (lookup-insert key name (plus (found (lookup key dest)) v) dest) ∙ branch
  where
    branch :
        found (if equal key name then some (plus (found (lookup key dest)) v) else lookup name dest)
        ≡ (if equal key name then plus (found (lookup name dest)) v else found (lookup name dest))
    branch = elim (Bool-cases (equal key name)) [
      | inl same ↦
          let e : key ≡ name = (equal_iff key name).0 same in
          rw same (unfold found in ap (λ k. plus (found (lookup k dest)) v) e)
      | inr other ↦ rw other refl
    ]

-- The entry of a name: its articles and its sender count are added up, and its senders are those of
-- all values with that summary.
pub record IsSum (summarizer : Bytes → Bytes) (name : Bytes) (values : Values)
    (old new : PropertyValue) : Type 0 where
  pub articles : new.articles ≡ old.articles + total PropertyValue.articles summarizer name values
  pub sender_count :
      new.sender_count ≡ old.sender_count + total PropertyValue.sender_count summarizer name values
  pub senders :
      (s : Bytes)
      → contains s new.senders ≡ (contains s old.senders || some_has s summarizer name values)

module _ (summarizer : Bytes → Bytes) (name value : Bytes) (v : PropertyValue)
    (values : Values) where
  IsSum-under :
      {old new : PropertyValue}
      → equal (summarizer value) name ≡ true
      → IsSum summarizer name values (plus old v) new
      → IsSum summarizer name ((value, v) ∷ values) old new
  IsSum-under {old} same i = record {
    articles = unfold total plus in rw same (omega (arith, i.articles));
    sender_count = unfold total plus in rw same (omega (arith, i.sender_count));
    senders = λ s.
        unfold some_has plus in
        rw same (
          i.senders s
          ∙ (ap (λ b. b || some_has s summarizer name values)
                (contains-insert_senders s v.senders old.senders)
              ∙ or_turn (contains s v.senders) (contains s old.senders)
                  (some_has s summarizer name values)));
  }

  IsSum-other :
      {old new : PropertyValue}
      → equal (summarizer value) name ≡ false
      → IsSum summarizer name values old new
      → IsSum summarizer name ((value, v) ∷ values) old new
  IsSum-other other i = record {
    articles = unfold total in rw other (omega (arith, i.articles));
    sender_count = unfold total in rw other (omega (arith, i.sender_count));
    senders = λ s. unfold some_has in rw other (i.senders s);
  }

-- For each name, `summarize` adds to its entry the articles and the sender counts of all values whose
-- summary it is, and their senders.
pub summarize-IsSum :
    (summarizer : Bytes → Bytes) (values dest : Values) (name : Bytes)
    → IsSum summarizer name values
        (found (lookup name dest))
        (found (lookup name (summarize summarizer values dest)))
unfolding summarize
summarize-IsSum summarizer [] dest name = record {
  articles = unfold total in omega arith;
  sender_count = unfold total in omega arith;
  senders = λ s. unfold some_has in or_false (contains s (found (lookup name dest)).senders);
}
summarize-IsSum summarizer ((value, v) ∷ values) dest name =
    let key = summarizer value in
    let next = insert key (plus (found (lookup key dest)) v) dest in
    let i = summarize-IsSum summarizer values next name in
    let round = found-plus name key v dest in
    let new = found (lookup name (summarize summarizer values next)) in
    elim (Bool-cases (equal key name)) [
      | inl same ↦
          IsSum-under summarizer name value v values same
            (subst (λ p. IsSum summarizer name values p new) (rw same at round) i)
      | inr other ↦
          IsSum-other summarizer name value v values other
            (subst (λ p. IsSum summarizer name values p new) (rw other at round) i)
    ]
