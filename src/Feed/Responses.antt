-- ===== src/Feed/Responses.antt =====
-- Whole responses at the fetcher of gateways/lj2news.c, with those of a forwarding chain before them.
use mathlib.Core.Path.{subst}
use mathlib.Core.List.{cons-ne-nil}
use nntp_tools.Text.{starts_with, has_substring, to_lower}
use nntp_tools.Prelude.{
  ℕ, ◌≡◌, ◌≢◌, ◌⊎◌, inl, inr, refl, ap, sym, ◌∙◌, true, false, List, [], ◌∷◌, ◌++◌, Bytes, codes,
  All, if◌then◌else◌, Bool-cases, arith,
}
use nntp_tools.Feed.ContentTypes.{accepted, IsContentType, NamesXml, accepted-verdict}
use nntp_tools.Feed.Http.{
  HttpState, http_initial, http_error, http_final, http_ok, header_text, status_step, is_status,
  status_class, is_wrong_type, type_step, end_step, first_step, write_header, target, piped, Event,
  header, body, transfer, WriteResult, wrote, interrupted, write_all, set_http_state, is_decided,
}

-- A response as curl hands it over.
pub record Response : Type 0 where
  pub status : Bytes
  pub fields : List Bytes
  pub chunks : List Bytes

unfoldable pub headers : List Bytes → List Event → List Event
headers [] rest = rest
headers (f ∷ fs) rest = header f ∷ headers fs rest

unfoldable pub bodies : List Bytes → List Event → List Event
bodies [] rest = rest
bodies (b ∷ bs) rest = body b ∷ bodies bs rest

-- The status line, the fields, the empty line and the body, in front of what comes next.
unfoldable pub response : Response → List Event → List Event
response r rest = header r.status ∷ headers r.fields (header (codes "\r\n") ∷ bodies r.chunks rest)

unfoldable pub concat : List Bytes → Bytes
concat [] = []
concat (b ∷ bs) = b ++ concat bs

-- A header field: not empty, and no status line.
unfoldable pub IsField : Bytes → Type 0
IsField f = (header_text f ≢ []) × (is_status (header_text f) ≡ false)

-- A response whose status is of the class `k`.
pub record IsResponse (r : Response) (k : ℕ) : Type 0 where
  pub is_status_line : is_status (header_text r.status) ≡ true
  pub class_known : status_class (header_text r.status) ≡ k
  pub fields_valid : All IsField r.fields

end_step-more : (s : HttpState) (h : Bytes) → h ≢ [] → end_step s h ≡ s
unfolding end_step
end_step-more http_initial h n = refl
end_step-more http_error h n = refl
end_step-more http_ok h n = refl
end_step-more http_final [] n = absurd (n refl)
end_step-more http_final (c ∷ h) n = refl

write_header-field :
    (s : HttpState) (f : Bytes) → IsField f → write_header s f ≡ type_step s (header_text f)
unfolding write_header IsField first_step
write_header-field s f (n, h) =
    rw (h, end_step-more (type_step s (header_text f)) (header_text f) n) refl

transfer-headers_initial :
    (fs : List Bytes) (rest : List Event)
    → All IsField fs
    → transfer http_initial (headers fs rest) ≡ transfer http_initial rest
unfolding transfer headers type_step
transfer-headers_initial [] rest _ = refl
transfer-headers_initial (f ∷ fs) rest (h, hs) =
    ap (λ s. transfer s (headers fs rest)) (write_header-field http_initial f h)
    ∙ transfer-headers_initial fs rest hs

transfer-bodies_initial :
    (bs : List Bytes) (rest : List Event)
    → transfer http_initial (bodies bs rest) ≡ transfer http_initial rest
unfolding transfer bodies piped target
transfer-bodies_initial [] rest = refl
transfer-bodies_initial (b ∷ bs) rest = transfer-bodies_initial bs rest

-- An error is final, and nothing goes into the pipe.
write_header-error : (line : Bytes) → write_header http_error line ≡ http_error
unfolding write_header first_step type_step end_step status_step set_http_state
write_header-error line = ground arith

transfer-error : (events : List Event) → transfer http_error events ≡ (http_error, [])
unfolding transfer piped target
transfer-error [] = refl
transfer-error (header line ∷ events) =
    ap (λ s. transfer s events) (write_header-error line) ∙ transfer-error events
transfer-error (body b ∷ events) = transfer-error events

transfer-bodies_ok : (bs : List Bytes) → transfer http_ok (bodies bs []) ≡ (http_ok, concat bs)
unfolding transfer bodies piped target concat
transfer-bodies_ok [] = refl
transfer-bodies_ok (b ∷ bs) = rw (transfer-bodies_ok bs) refl

-- What the last response comes to: a success without a content type that does not name XML puts its body
-- into the pipe; a success with one, and an error, put nothing there.
pub data IsVerdict (r : Response) : ℕ → HttpState × Bytes → Type 0 where
  taken :
      All (λ f. NamesXml f ⊎ ¬ IsContentType f) r.fields → IsVerdict r 2 (http_ok, concat r.chunks)
  other_type :
      (before after : List Bytes) (f : Bytes)
      → r.fields ≡ before ++ f ∷ after
      → IsContentType f
      → ¬ NamesXml f
      → IsVerdict r 2 (http_error, [])
  refused : (k : ℕ) → (k ≡ 4) ⊎ (k ≡ 5) → IsVerdict r k (http_error, [])

-- A status line is not empty, so it ends nothing.
status_line-ne-nil : (h : Bytes) → is_status h ≡ true → h ≢ []
unfolding is_status starts_with
status_line-ne-nil [] p e = absurd (ground (arith, p))
status_line-ne-nil (c ∷ h) p e = cons-ne-nil c h e

-- A status line is no content type.
status_line-not_type : (h : Bytes) → is_status h ≡ true → is_wrong_type h ≡ false
unfolding is_status is_wrong_type starts_with
status_line-not_type [] p = refl
status_line-not_type (c ∷ h) p = ground (arith, p)

settled :
    (k : ℕ) (h : Bytes)
    → is_status h ≡ true
    → end_step (type_step (status_step http_initial k) h) h ≡ status_step http_initial k
unfolding status_step set_http_state type_step
settled k h p =
    let right = status_line-not_type h p in
    let n = status_line-ne-nil h p in
    end_step-more (type_step (status_step http_initial k) h) h n ∙ ground (arith, right)

status_step-other : (k : ℕ) → k ≢ 2 → k ≢ 4 → k ≢ 5 → status_step http_initial k ≡ http_initial
unfolding status_step
status_step-other k a b c = ground (arith, a, b, c)

status_step-bad : (k : ℕ) → (k ≡ 4) ⊎ (k ≡ 5) → status_step http_initial k ≡ http_error
unfolding status_step set_http_state
status_step-bad k (inl e) = ground (arith, e)
status_step-bad k (inr e) = ground (arith, e)

write_header-status :
    (k : ℕ) (r : Response)
    → IsResponse r k
    → write_header http_initial r.status ≡ status_step http_initial k
unfolding write_header first_step
write_header-status k r h =
    rw (h.is_status_line, h.class_known) (settled k (header_text r.status) h.is_status_line)

-- The fields of the final response, and its end.
transfer-fields :
    (fs bs : List Bytes)
    → All IsField fs
    → transfer http_final (headers fs (header (codes "\r\n") ∷ bodies bs []))
      ≡ (if accepted fs then (http_ok, concat bs) else (http_error, []))
unfolding transfer headers accepted type_step set_http_state write_header end_step first_step
    is_status starts_with header_text nntp_tools.Text.c_string nntp_tools.Feed.Http.trim_eol
    is_wrong_type
transfer-fields [] bs _ = transfer-bodies_ok bs
transfer-fields (f ∷ fs) bs (h, hs) = elim (Bool-cases (is_wrong_type (header_text f))) [
  | inl wrong ↦
      ap (λ s. transfer s (headers fs (header (codes "\r\n") ∷ bodies bs [])))
        (write_header-field http_final f h ∙ ground (arith, wrong))
      ∙ (transfer-error (headers fs (header (codes "\r\n") ∷ bodies bs [])) ∙ rw (wrong) refl)
  | inr right ↦
      ap (λ s. transfer s (headers fs (header (codes "\r\n") ∷ bodies bs [])))
        (write_header-field http_final f h ∙ ground (arith, right))
      ∙ (transfer-fields fs bs hs ∙ rw (right) refl)
]

-- A response that is none of a success or an error.
unfoldable pub IsInterim : Response → Type 0
IsInterim r = (k : ℕ) × IsResponse r k × (k ≢ 2) × (k ≢ 4) × (k ≢ 5)

transfer-interim :
    (r : Response) (rest : List Event)
    → IsInterim r
    → transfer http_initial (response r rest) ≡ transfer http_initial rest
unfolding IsInterim response bodies transfer write_header end_step type_step first_step is_status
    starts_with header_text nntp_tools.Text.c_string nntp_tools.Feed.Http.trim_eol
transfer-interim r rest (k, h, n2, n4, n5) =
    let after = headers r.fields (header (codes "\r\n") ∷ bodies r.chunks rest) in
    ap (λ s. transfer s after) (write_header-status k r h ∙ status_step-other k n2 n4 n5)
    ∙ transfer-headers_initial r.fields (header (codes "\r\n") ∷ bodies r.chunks rest)
        h.fields_valid
    ∙ transfer-bodies_initial r.chunks rest

-- The responses of a chain, in front of what comes next.
unfoldable pub chain : List Response → List Event → List Event
chain [] rest = rest
chain (r ∷ rs) rest = response r (chain rs rest)

transfer-chain_initial :
    (rs : List Response) (rest : List Event)
    → All IsInterim rs
    → transfer http_initial (chain rs rest) ≡ transfer http_initial rest
unfolding chain
transfer-chain_initial [] rest _ = refl
transfer-chain_initial (r ∷ rs) rest (h, hs) =
    transfer-interim r (chain rs rest) h ∙ transfer-chain_initial rs rest hs

transfer-success :
    (r : Response)
    → IsResponse r 2
    → transfer http_initial (response r [])
      ≡ (if accepted r.fields then (http_ok, concat r.chunks) else (http_error, []))
unfolding response status_step transfer set_http_state
transfer-success r h =
    ap (λ s. transfer s (headers r.fields (header (codes "\r\n") ∷ bodies r.chunks [])))
      (write_header-status 2 r h)
    ∙ transfer-fields r.fields r.chunks h.fields_valid

transfer-failure :
    (r : Response) (k : ℕ)
    → IsResponse r k
    → (k ≡ 4) ⊎ (k ≡ 5)
    → transfer http_initial (response r []) ≡ (http_error, [])
unfolding response write_header headers end_step type_step first_step is_status starts_with
    header_text nntp_tools.Text.c_string nntp_tools.Feed.Http.trim_eol transfer
transfer-failure r k h error =
    let after = headers r.fields (header (codes "\r\n") ∷ bodies r.chunks []) in
    ap (λ s. transfer s after) (write_header-status k r h ∙ status_step-bad k error)
    ∙ transfer-error after

-- The verdict on a success.
success-IsVerdict :
    (r : Response)
    → IsVerdict r 2 (if accepted r.fields then (http_ok, concat r.chunks) else (http_error, []))
success-IsVerdict r = elim (accepted-verdict r.fields) [
  | inl (e, all) ↦ rw (e) (taken all)
  | inr (e, (before, after, f, at, type, no_xml)) ↦
      rw (e) (other_type before after f at type no_xml)
]

-- Behind any responses of classes other than 2, 4 and 5, such as redirections, a last response of class
-- 2, 4 or 5 decides. A success puts its body into the pipe, and the state is OK, unless one of its fields
-- is a `Content-Type` without `text/xml` in it, in upper or lower case; then, and in the classes 4 and 5,
-- the state is an error and nothing goes into the pipe.
pub transfer-chain :
    (rs : List Response) (r : Response) (k : ℕ)
    → All IsInterim rs
    → IsResponse r k
    → (k ≡ 2) ⊎ ((k ≡ 4) ⊎ (k ≡ 5))
    → IsVerdict r k (transfer http_initial (chain rs (response r [])))
transfer-chain rs r k hs h (inl e) =
    subst (λ n. IsVerdict r n (transfer http_initial (chain rs (response r [])))) (sym e)
      (subst (IsVerdict r 2)
        (sym (
          transfer-chain_initial rs (response r []) hs
          ∙ transfer-success r (subst (IsResponse r) e h)))
        (success-IsVerdict r))
transfer-chain rs r k hs h (inr e) =
    subst (IsVerdict r k)
      (sym (transfer-chain_initial rs (response r []) hs ∙ transfer-failure r k h e)) (refused k e)

-- When all responses are of other classes than 2, 4 and 5, no state that `main` waits for is reached.
pub transfer-waits :
    (rs : List Response)
    → All IsInterim rs
    → is_decided (transfer http_initial (chain rs [])).0 ≡ false
unfolding is_decided transfer
transfer-waits rs hs = rw (transfer-chain_initial rs [] hs) refl
