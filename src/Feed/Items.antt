-- ===== src/Feed/Items.antt =====
-- What the callbacks of gateways/lj2news.c make of the items of a feed.
use mathlib.Core.List.{map}
use nntp_tools.Prelude.{
  ◌≡◌, refl, ap, sym, ◌∙◌, false, List, [], ◌∷◌, ◌++◌, append-nil, append_assoc, Option, none, some,
  Bytes, codes, equal, if◌then◌else◌, ok, All,
}
use nntp_tools.Feed.Elements.{
  Parser, increment, decrement, start_element, end_element, append_text, character_data, XmlEvent,
  start, end, text, callback, parse, find_element,
}

-- An element in an item: its name, and its text in the parts that expat delivers; or text between them.
pub data Piece : Type 0 where
  field : Bytes → List Bytes → Piece
  gap : Bytes → Piece

unfoldable pub texts : List Bytes → List XmlEvent → List XmlEvent
texts [] rest = rest
texts (s ∷ ss) rest = text s ∷ texts ss rest

unfoldable pub pieces : List Piece → List XmlEvent → List XmlEvent
pieces [] rest = rest
pieces (field name ss ∷ ps) rest = start name ∷ texts ss (end name ∷ pieces ps rest)
pieces (gap s ∷ ps) rest = text s ∷ pieces ps rest

unfoldable pub joined : List Bytes → Bytes
joined [] = []
joined (s ∷ ss) = s ++ joined ss

-- The elements that are in front of `es` after the pieces.
unfoldable pub collected : List Piece → List (Bytes × Bytes) → List (Bytes × Bytes)
collected [] es = es
collected (field name ss ∷ ps) es = collected ps ((name, joined ss) ∷ es)
collected (gap s ∷ ps) es = collected ps es

unfoldable pub NotItem : Piece → Type 0
NotItem (field name ss) = equal name (codes "item") ≡ false
NotItem (gap s) = Unit

-- What stands in a feed: the tags and the text around the items, such as `rss`, `channel` and what the
-- channel says of itself, in any order; and the items.
pub data Part : Type 0 where
  opening closing between : Bytes → Part
  item : List Piece → Part

unfoldable pub IsPart : Part → Type 0
IsPart (opening name) = equal name (codes "item") ≡ false
IsPart (closing name) = equal name (codes "item") ≡ false
IsPart (between s) = Unit
IsPart (item ps) = All NotItem ps

unfoldable pub parts : List Part → List XmlEvent
parts [] = []
parts (opening name ∷ is) = start name ∷ parts is
parts (closing name ∷ is) = end name ∷ parts is
parts (between s ∷ is) = text s ∷ parts is
parts (item ps ∷ is) = start (codes "item") ∷ pieces ps (end (codes "item") ∷ parts is)

-- The items of a feed, in order.
unfoldable pub items : List Part → List (List Piece)
items [] = []
items (item ps ∷ is) = ps ∷ items is
items (opening name ∷ is) = items is
items (closing name ∷ is) = items is
items (between s ∷ is) = items is

unfoldable pub item_elements : List (List Piece) → List (List (Bytes × Bytes))
item_elements [] = []
item_elements (ps ∷ is) = collected ps [] ∷ item_elements is

-- A state between two elements of an item.
unfoldable pub inside : List (Bytes × Bytes) → List (List (Bytes × Bytes)) → Parser
inside es done = record { item = 1; subitem = 0; elements = es; processed = done }

unfoldable pub in_field : List (Bytes × Bytes) → List (List (Bytes × Bytes)) → Parser
in_field es done = record { item = 1; subitem = 1; elements = es; processed = done }

unfoldable pub outside : List (Bytes × Bytes) → List (List (Bytes × Bytes)) → Parser
outside es done = record { item = 0; subitem = 0; elements = es; processed = done }

parse-texts :
    (ss : List Bytes) (name value : Bytes) (es : List (Bytes × Bytes))
    (done : List (List (Bytes × Bytes))) (rest : List XmlEvent)
    → parse (texts ss rest) (in_field ((name, value) ∷ es) done)
      ≡ parse rest (in_field ((name, value ++ joined ss) ∷ es) done)
unfolding parse texts joined callback character_data append_text in_field
parse-texts [] name value es done rest = rw (append-nil value) refl
parse-texts (s ∷ ss) name value es done rest =
    parse-texts ss name (value ++ s) es done rest
    ∙ ap (λ v. parse rest (in_field ((name, v) ∷ es) done)) (append_assoc value s (joined ss))

opened :
    (name : Bytes) (es : List (Bytes × Bytes)) (done : List (List (Bytes × Bytes)))
    → equal name (codes "item") ≡ false
    → start_element name (inside es done) ≡ in_field ((name, []) ∷ es) done
unfolding start_element increment inside in_field
opened name es done h = rw (h) refl

closed :
    (name : Bytes) (es : List (Bytes × Bytes)) (done : List (List (Bytes × Bytes)))
    → equal name (codes "item") ≡ false
    → end_element name (in_field es done) ≡ inside es done
unfolding end_element decrement inside in_field
closed name es done h = rw (h) refl

parse-pieces :
    (ps : List Piece) (es : List (Bytes × Bytes)) (done : List (List (Bytes × Bytes)))
    (rest : List XmlEvent)
    → All NotItem ps
    → parse (pieces ps rest) (inside es done) ≡ parse rest (inside (collected ps es) done)
unfolding parse pieces callback increment decrement start_element end_element character_data inside
    collected NotItem in_field
parse-pieces [] es done rest _ = refl
parse-pieces (gap s ∷ ps) es done rest (_, hs) = parse-pieces ps es done rest hs
parse-pieces (field name ss ∷ ps) es done rest (h, hs) =
    let after = end name ∷ pieces ps rest in
    ap (λ p. parse (texts ss after) p) (opened name es done h)
    ∙ (parse-texts ss name [] es done after
        ∙ (ap (λ p. parse (pieces ps rest) p) (closed name ((name, joined ss) ∷ es) done h)
            ∙ parse-pieces ps ((name, joined ss) ∷ es) done rest hs))

-- A tag around the items changes nothing.
start_element-outside :
    (name : Bytes) (es : List (Bytes × Bytes)) (done : List (List (Bytes × Bytes)))
    → equal name (codes "item") ≡ false
    → start_element name (outside es done) ≡ outside es done
unfolding start_element increment outside
start_element-outside name es done h = rw (h) refl

end_element-outside :
    (name : Bytes) (es : List (Bytes × Bytes)) (done : List (List (Bytes × Bytes)))
    → equal name (codes "item") ≡ false
    → end_element name (outside es done) ≡ outside es done
unfolding end_element decrement outside
end_element-outside name es done h = rw (h) refl

-- The parser reads the parts up to a state outside of the items, with the calls for `found` behind `done`.
unfoldable Reads :
    List Part → List (Bytes × Bytes) → List (List (Bytes × Bytes)) → List (List Piece) → Type 0
Reads is es done found =
    (last : List (Bytes × Bytes)) × (parse (parts is) (outside es done)
      ≡ ok (outside last (done ++ item_elements found)))

parse-parts :
    (is : List Part) (es : List (Bytes × Bytes)) (done : List (List (Bytes × Bytes)))
    → All IsPart is
    → Reads is es done (items is)
unfolding Reads parse parts items item_elements callback increment decrement start_element
    end_element character_data outside inside equal IsPart
parse-parts [] es done _ = (es, ap (λ d. ok (outside es d)) (sym (append-nil done)))
parse-parts (opening name ∷ is) es done (h, hs) =
    let (last, rest) = parse-parts is es done hs in
    (last, ap (λ p. parse (parts is) p) (start_element-outside name es done h) ∙ rest)
parse-parts (closing name ∷ is) es done (h, hs) =
    let (last, rest) = parse-parts is es done hs in
    (last, ap (λ p. parse (parts is) p) (end_element-outside name es done h) ∙ rest)
parse-parts (between s ∷ is) es done (_, hs) = parse-parts is es done hs
parse-parts (item ps ∷ is) es done (h, hs) =
    let after = end (codes "item") ∷ parts is in
    let found = collected ps [] in
    let (last, rest) = parse-parts is found (done ++ found ∷ []) hs in
    (
      last,
      parse-pieces ps [] done after h
          ∙ (rest
              ∙ ap (λ d. ok (outside last d))
                  (append_assoc done (found ∷ []) (item_elements (items is)))),
    )

-- The text of the last piece with this name, and `before` where there is none.
unfoldable pub last_value : Bytes → List Piece → Option Bytes → Option Bytes
last_value name [] before = before
last_value name (field n ss ∷ ps) before =
    last_value name ps (if equal n name then some (joined ss) else before)
last_value name (gap s ∷ ps) before = last_value name ps before

find_element-collected_from :
    (name : Bytes) (ps : List Piece) (es : List (Bytes × Bytes))
    → find_element (collected ps es) name ≡ last_value name ps (find_element es name)
unfolding collected last_value find_element
find_element-collected_from name [] es = refl
find_element-collected_from name (field n ss ∷ ps) es =
    find_element-collected_from name ps ((n, joined ss) ∷ es)
find_element-collected_from name (gap s ∷ ps) es = find_element-collected_from name ps es

find_element-collected :
    (name : Bytes) (ps : List Piece) → find_element (collected ps []) name ≡ last_value name ps none
unfolding find_element
find_element-collected name ps = find_element-collected_from name ps []

find_element-items :
    (name : Bytes) (is : List (List Piece))
    → map (λ es. find_element es name) (item_elements is) ≡ map (λ ps. last_value name ps none) is
unfolding item_elements
find_element-items name [] = refl
find_element-items name (ps ∷ is) =
    rw (find_element-collected name ps, find_element-items name is) refl

-- A feed of items among other tags and texts, which stand in any order, where the elements of an item hold
-- only text and no tag in an item or around the items is called `item`: `process` is called once for each
-- item, in order, and `find_element` finds in a call's elements the item's last element of the name, with
-- all of its text. The tags and texts around the items leave nothing behind.
pub parse-items :
    (is : List Part) (es : List (Bytes × Bytes))
    → All IsPart is
    → (last : List (Bytes × Bytes)) × (calls : List (List (Bytes × Bytes))) × (parse
          (parts is)
          (outside es [])
        ≡ ok (outside last calls))
      × ((name : Bytes)
          → map (λ c. find_element c name) calls ≡ map (λ ps. last_value name ps none) (items is))
unfolding Reads
parse-items is es h =
    let (last, read) = parse-parts is es [] h in
    (last, item_elements (items is), read, λ name. find_element-items name (items is))
