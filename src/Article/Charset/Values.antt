-- ===== src/Article/Charset/Values.antt =====
-- What `charset` makes of an unquoted and of a quoted charset parameter.
use mathlib.Core.List.{map}
use nntp_tools.Prelude.{
  ℕ, zero, suc, ◌+◌, ◌-◌, ◌≡◌, ◌≢◌, refl, sym, ap, ◌∙◌, Bool, true, false, [], ◌∷◌, ◌++◌,
  append_assoc, append-nil, none, some, Bytes, codes, length, arith, length-append, take-length,
  drop-length, All, ◌⊎◌, inl, inr, Bool-cases,
}
use nntp_tools.Text.{char_at, to_lower}
use nntp_tools.Article.Charset.{
  find, find_string, find_from, not_space, not_token, member, unknown, lower_between, charset_value,
  charset_equals, charset_of,
}

find_from-append :
    (p : ℕ → Bool) (n k : ℕ) (pre s : Bytes)
    → length pre ≡ n
    → find p s ≡ some k
    → find_from p (pre ++ s) n ≡ some (n + k)
unfolding find_from
find_from-append p n k pre s h f = rw (find_from, drop-length n pre s h, f) refl

find_from-none :
    (p : ℕ → Bool) (n : ℕ) (pre s : Bytes)
    → length pre ≡ n
    → find p s ≡ none
    → find_from p (pre ++ s) n ≡ none
unfolding find_from
find_from-none p n pre s h f = rw (find_from, drop-length n pre s h, f) refl

char_at-append : (n c : ℕ) (pre s : Bytes) → length pre ≡ n → char_at (pre ++ c ∷ s) n ≡ c
char_at-append zero c [] s h = refl
char_at-append zero c (d ∷ pre) s h = absurd (omega (arith, h))
char_at-append (suc n) c [] s h = absurd (omega (arith, h))
char_at-append (suc n) c (d ∷ pre) s h = char_at-append n c pre s (omega (arith, h))

-- From the equals sign on, in a content type `pre ++ "=" ++ v` with the sign at `n`.
charset_equals-value :
    (n : ℕ) (pre v : Bytes)
    → length pre ≡ n
    → find not_space v ≡ some 0
    → charset_equals (pre ++ b'=' ∷ v) n ≡ charset_value (pre ++ b'=' ∷ v) (suc n + 0)
unfolding charset_equals
charset_equals-value n pre v h f =
    let whole : (pre ++ b'=' ∷ []) ++ v ≡ pre ++ b'=' ∷ v = append_assoc pre (b'=' ∷ []) v in
    let size : length (pre ++ b'=' ∷ []) ≡ suc n =
      length-append pre (b'=' ∷ []) ∙ omega (arith, h) in
    let next : find_from not_space (pre ++ b'=' ∷ v) (suc n) ≡ some (suc n + 0) =
      ap (λ t. find_from not_space t (suc n)) (sym whole)
      ∙ find_from-append not_space (suc n) 0 _ v size f in
    rw (char_at-append n b'=' pre v h, next)

charset_of-found :
    (ct : Bytes) (pos next : ℕ)
    → find_string (codes "charset") ct ≡ some pos
    → find_from not_space ct (pos + 7) ≡ some next
    → charset_of ct ≡ charset_equals ct next
unfolding charset_of
charset_of-found ct pos next h f = rw (charset_of, h, f) refl

find-sign : (v : Bytes) → find not_space (b'=' ∷ v) ≡ some 0
unfolding find
find-sign v = refl

-- `charset_of` up to the value.
charset_of-value :
    (pre v : Bytes)
    → find_string (codes "charset") (pre ++ (codes "charset=" ++ v)) ≡ some (length pre)
    → find not_space v ≡ some 0
    → charset_of (pre ++ (codes "charset=" ++ v))
      ≡ charset_value (pre ++ (codes "charset=" ++ v)) (length pre + 8)
charset_of-value pre v h f =
    let front = pre ++ codes "charset" in
    let whole : front ++ b'=' ∷ v ≡ pre ++ (codes "charset=" ++ v) =
      append_assoc pre (codes "charset") (b'=' ∷ v) in
    let size : length front ≡ length pre + 7 = length-append pre (codes "charset") in
    let sign : find_from not_space (pre ++ (codes "charset=" ++ v)) (length pre + 7)
        ≡ some (length pre + 7 + 0) =
      ap (λ t. find_from not_space t (length pre + 7)) (sym whole)
      ∙ find_from-append not_space _ 0 front (b'=' ∷ v) size (find-sign v) in
    let n = length pre + 7 + 0 in
    let last : suc n + 0 ≡ length pre + 8 = omega arith in
    charset_of-found _ _ n h sign
    ∙ (ap (λ t. charset_equals t n) (sym whole)
        ∙ (charset_equals-value n front v (size ∙ omega arith) f
            ∙ (ap (λ t. charset_value t (suc n + 0)) whole ∙ ap (charset_value _) last)))

find-first : (p : ℕ → Bool) (c : ℕ) (s : Bytes) → p c ≡ true → find p (c ∷ s) ≡ some 0
unfolding find
find-first p c s h = rw (find, h) refl

find-skip :
    (p : ℕ → Bool) (t s : Bytes)
    → All (λ c. p c ≡ false) t
    → find p s ≡ some 0
    → find p (t ++ s) ≡ some (length t)
unfolding find
find-skip p [] s _ f = f
find-skip p (c ∷ t) s (h, hs) f = ground (arith, h, find-skip p t s hs f)

find-all : (p : ℕ → Bool) (t : Bytes) → All (λ c. p c ≡ false) t → find p t ≡ none
unfolding find
find-all p [] _ = refl
find-all p (c ∷ t) (h, hs) = ground (arith, h, find-all p t hs)

charset_value-empty :
    (ct : Bytes) (pos : ℕ)
    → pos ≢ 34
    → find_from not_token ct pos ≡ some pos
    → charset_value ct pos ≡ unknown
unfolding charset_value
charset_value-empty ct pos h f = ground (arith, f)

charset_value-inside :
    (ct : Bytes) (pos end_pos : ℕ)
    → pos ≢ 34
    → pos ≢ end_pos
    → find_from not_token ct pos ≡ some end_pos
    → charset_value ct pos ≡ lower_between ct pos end_pos
unfolding charset_value
charset_value-inside ct pos end_pos h n f = ground (arith, f)

charset_value-last :
    (ct : Bytes) (pos : ℕ)
    → pos ≢ 34
    → pos ≢ length ct
    → find_from not_token ct pos ≡ none
    → charset_value ct pos ≡ lower_between ct pos (length ct)
unfolding charset_value
charset_value-last ct pos h n f = ground (arith, f)

not_space-token : (c : ℕ) → not_token c ≡ false → not_space c ≡ true
unfolding not_token member
not_space-token c h = elim (Bool-cases (not_space c)) [
  | inl spaced ↦ spaced
  | inr other ↦ elim (blanks c other) [
    | inl e ↦ clash (sym (ap not_token e) ∙ h)
    | inr (inl e) ↦ clash (sym (ap not_token e) ∙ h)
    | inr (inr (inl e)) ↦ clash (sym (ap not_token e) ∙ h)
    | inr (inr (inr e)) ↦ clash (sym (ap not_token e) ∙ h)
  ]
]
  where
    clash : true ≡ false → not_space c ≡ true
    clash e = cc

    blanks : (c : ℕ) → not_space c ≡ false → (c ≡ 32) ⊎ (c ≡ 9) ⊎ (c ≡ 13) ⊎ (c ≡ 10)
    blanks c h = ground (arith, h)

-- What follows a token: the end of the content type, or a byte that no token has.
abbrev pub EndsToken : Bytes → Type 0
EndsToken [] = Unit
EndsToken (c ∷ s) = not_token c ≡ true

lower_between-token :
    (pre token rest : Bytes) (n e : ℕ)
    → length pre ≡ n
    → n + length token ≡ e
    → lower_between (pre ++ (token ++ rest)) n e ≡ map to_lower token
lower_between-token pre token rest n e h k =
    let size : e - n ≡ length token = omega (arith, h, k) in
    rw (size, drop-length n pre (token ++ rest) h, take-length (length token) token rest refl) refl

charset_value-token :
    (pre token rest : Bytes) (n : ℕ)
    → length pre ≡ n
    → n ≢ 34
    → token ≢ []
    → All (λ c. not_token c ≡ false) token
    → EndsToken rest
    → charset_value (pre ++ (token ++ rest)) n ≡ map to_lower token
charset_value-token pre [] rest n h far some_token ts ends = absurd (some_token refl)
charset_value-token pre (c ∷ token) [] n h far some_token ts ends =
    let size : n + length (c ∷ token) ≡ length (pre ++ (c ∷ token ++ [])) =
      omega (arith, h, length-append pre (c ∷ token ++ []), length-append token []) in
    let all : find not_token (c ∷ token ++ []) ≡ none =
      ap (find not_token) (append-nil (c ∷ token)) ∙ find-all not_token (c ∷ token) ts in
    charset_value-last _ n far (omega (arith, size)) (find_from-none not_token n pre _ h all)
    ∙ lower_between-token pre (c ∷ token) [] n _ h size
charset_value-token pre (c ∷ token) (d ∷ rest) n h far some_token ts ends =
    let next = find-skip not_token (c ∷ token) (d ∷ rest) ts (find-first not_token d rest ends) in
    charset_value-inside _ n (n + length (c ∷ token)) far (omega arith)
      (find_from-append not_token n _ pre _ h next)
    ∙ lower_between-token pre (c ∷ token) (d ∷ rest) n _ h refl

first_space :
    (token rest : Bytes)
    → token ≢ []
    → All (λ c. not_token c ≡ false) token
    → find not_space (token ++ rest) ≡ some 0
first_space [] rest h _ = absurd (h refl)
first_space (c ∷ token) rest h (t, _) = find-first not_space c (token ++ rest) (not_space-token c t)

-- Where the first `charset` of a content type stands in `charset=token`, behind any text but one of
-- 26 bytes, and the token ends at the end or at a byte that no token has, `charset` is the token in
-- lower case.
pub charset_of-token :
    (pre token rest : Bytes)
    → find_string (codes "charset") (pre ++ (codes "charset=" ++ (token ++ rest)))
      ≡ some (length pre)
    → length pre ≢ 26
    → token ≢ []
    → All (λ c. not_token c ≡ false) token
    → EndsToken rest
    → charset_of (pre ++ (codes "charset=" ++ (token ++ rest))) ≡ map to_lower token
charset_of-token pre token rest first far some_token ts ends =
    charset_of-value pre (token ++ rest) first (first_space token rest some_token ts)
    ∙ (ap (λ t. charset_value t (length pre + 8))
          (sym (append_assoc pre (codes "charset=") (token ++ rest)))
        ∙ charset_value-token (pre ++ codes "charset=") token rest _
            (length-append pre (codes "charset=")) (omega arith) some_token ts ends)

quote_first : (p : Bytes) → find not_token (b'"' ∷ p) ≡ some 0
unfolding find not_token member
quote_first p = refl

quote_not_space : (p : Bytes) → find not_space (b'"' ∷ p) ≡ some 0
unfolding find
quote_not_space p = refl

-- Where the first `charset` of a content type stands in `charset="`, behind any text but one of 26
-- bytes, `charset` is `unknown`, whatever is quoted.
pub charset_of-quoted :
    (pre rest : Bytes)
    → find_string (codes "charset") (pre ++ (codes "charset=" ++ b'"' ∷ rest)) ≡ some (length pre)
    → length pre ≢ 26
    → charset_of (pre ++ (codes "charset=" ++ b'"' ∷ rest)) ≡ unknown
charset_of-quoted pre rest first far =
    charset_of-value pre (b'"' ∷ rest) first (quote_not_space rest)
    ∙ (ap (λ t. charset_value t (length pre + 8))
          (sym (append_assoc pre (codes "charset=") (b'"' ∷ rest)))
        ∙ charset_value-empty _ _ (omega arith) (
            find_from-append not_token (length pre + 8) 0 _ _ (length-append pre (codes "charset="))
              (quote_first rest)
            ∙ ap some (omega arith)))
