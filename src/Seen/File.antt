-- ===== src/Seen/File.antt =====
-- The tracking file as the image of a list of nodes: what `get` and `pwrite` do at a node's position.
use nntp_tools.Prelude.{
  ℕ, zero, suc, ◌+◌, ◌*◌, ◌^◌, ◌<◌, ◌≡◌, refl, sym, ap, ◌∙◌, true, List, [], ◌∷◌, ◌++◌,
  append_assoc, append-nil, some, Bytes, length, take, drop, get_elem?, set, All, length-append,
  take-length, ok, arith,
}
use nntp_tools.Words.{limit, store, load, length-store, load-store}
use nntp_tools.Seen.{Node, encode, decode, has_nul, pread, pwrite, check_node, get}

-- A node that fits its 64 bytes.
pub record IsValid (n : Node) : Type 0 where
  pub left_fits : n.left < limit 8
  pub right_fits : n.right < limit 8
  pub commit_fits : length n.commit ≡ 48
  pub terminated : has_nul n.commit ≡ true

-- The bytes of a file of nodes.
unfoldable pub image : List Node → Bytes
image [] = []
image (n ∷ ns) = encode n ++ image ns

module _ {ℓ} {A : Type ℓ} where
  drop_past : (xs ys : List A) (m k : ℕ) → m ≡ length xs + k → drop m (xs ++ ys) ≡ drop k ys
  drop_past [] ys m k h = ap (λ j. drop j ys) (omega arith)
  drop_past (x ∷ xs) ys zero k h = absurd (omega arith)
  drop_past (x ∷ xs) ys (suc m) k h = drop_past xs ys m k (omega arith)

  take_past : (xs ys : List A) (m k : ℕ) → m ≡ length xs + k → take m (xs ++ ys) ≡ xs ++ take k ys
  take_past [] ys m k h = ap (λ j. take j ys) (omega arith)
  take_past (x ∷ xs) ys zero k h = absurd (omega arith)
  take_past (x ∷ xs) ys (suc m) k h = ap (◌∷◌ x) (take_past xs ys m k (omega arith))

drop-nil {ℓ} : {A : Type ℓ} (n : ℕ) → drop {A = A} n [] ≡ []
drop-nil zero = refl
drop-nil (suc n) = refl

length-encode : (n : Node) → IsValid n → length (encode n) ≡ 64
unfolding encode
length-encode n v =
    omega (
      arith,
      v.commit_fits,
      length-append {A = ℕ} _ _,
      length-store 8 n.left,
      length-store 8 n.right,
    )

pub length-image : (ns : List Node) → All IsValid ns → length (image ns) ≡ 64 * length ns
unfolding image
length-image [] _ = refl
length-image (n ∷ ns) (v, vs) =
    length-append (encode n) (image ns) ∙ omega (arith, length-encode n v, length-image ns vs)

pub image-append : (ns : List Node) (n : Node) → image (ns ++ n ∷ []) ≡ image ns ++ encode n
unfolding image
image-append [] n = append-nil (encode n)
image-append (m ∷ ns) n =
    ap (λ b. encode m ++ b) (image-append ns n)
    ∙ sym (append_assoc (encode m) (image ns) (encode n))

decode-encode : (n : Node) → IsValid n → decode (encode n) ≡ n
unfolding decode encode
decode-encode n v = λ i. record { left = left_back i; right = right_back i; commit = commit_back i }
  where
    l : Bytes
    l = store 8 n.left

    r : Bytes
    r = store 8 n.right

    left_back : load (take 8 (l ++ (r ++ n.commit))) ≡ n.left
    left_back =
        ap load (take-length 8 l _ (length-store 8 n.left)) ∙ load-store 8 n.left v.left_fits

    behind_left : drop 8 (l ++ (r ++ n.commit)) ≡ r ++ n.commit
    behind_left = drop_past l _ 8 0 (omega (arith, length-store 8 n.left))

    right_back : load (take 8 (drop 8 (l ++ (r ++ n.commit)))) ≡ n.right
    right_back =
        ap (λ b. load (take 8 b)) behind_left
        ∙ (ap load (take-length 8 r _ (length-store 8 n.right)) ∙ load-store 8 n.right v.right_fits)

    commit_back : drop 16 (l ++ (r ++ n.commit)) ≡ n.commit
    commit_back =
        drop_past l _ 16 8 (omega (arith, length-store 8 n.left))
        ∙ drop_past r _ 8 0 (omega (arith, length-store 8 n.right))

check_node-encode : (n : Node) → IsValid n → check_node (encode n) ≡ ok (some n)
unfolding check_node
check_node-encode n v = rw (length-encode n v, decode-encode n v, v.terminated)

get-image :
    (ns : List Node) (i : ℕ)
    → All IsValid ns
    → check_node (pread (image ns) (64 * i)) ≡ ok (get_elem? ns i)
unfolding image pread
get-image [] i _ = rw (drop-nil (64 * i)) (unfold check_node in refl)
get-image (n ∷ ns) zero (v, vs) =
    ap check_node (take-length 64 (encode n) (image ns) (length-encode n v)) ∙ check_node-encode n v
get-image (n ∷ ns) (suc i) (v, vs) =
    ap (λ b. check_node (take 64 b))
      (drop_past (encode n) (image ns) (64 * suc i) (64 * i) (omega (arith, length-encode n v)))
    ∙ get-image ns i vs

pub pwrite-image :
    (ns : List Node) (i : ℕ) (n : Node)
    → All IsValid ns
    → IsValid n
    → i < length ns
    → pwrite (image ns) (encode n) (64 * i) ≡ image (set ns i n)
unfolding image pwrite
pwrite-image [] i n _ _ h = elim h [ ]
pwrite-image (m ∷ ns) zero n (w, ws) v h =
    ap (λ b. encode n ++ b)
      (drop_past (encode m) (image ns) (0 + length (encode n)) 0
        (omega (arith, length-encode n v, length-encode m w)))
pwrite-image (m ∷ ns) (suc i) n (w, ws) v h =
    let size = length-encode m w in
    let front : take (64 * suc i) (encode m ++ image ns) ≡ encode m ++ take (64 * i) (image ns) =
      take_past (encode m) (image ns) (64 * suc i) (64 * i) (omega (arith, size)) in
    let back : drop (64 * suc i + length (encode n)) (encode m ++ image ns)
        ≡ drop (64 * i + length (encode n)) (image ns) =
      drop_past (encode m) (image ns) (64 * suc i + length (encode n)) (64 * i + length (encode n))
        (omega (arith, size)) in
    rw (front, back)
      (append_assoc (encode m) _ _
        ∙ ap (λ b. encode m ++ b) (pwrite-image ns i n ws v (omega arith)))

-- Reading at a node's position gives the node; behind the last node there is none.
pub get-image_at :
    (ns : List Node) (i : ℕ)
    → All IsValid ns
    → 64 * i < 2 ^ 63
    → get (image ns) (64 * i) ≡ ok (get_elem? ns i)
unfolding get
get-image_at ns i vs h = ground (arith, get-image ns i vs)
