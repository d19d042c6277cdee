-- ===== src/Hooks/Webhook/Limit.antt =====
-- What is read of an answer, and when none is.
use weave_auth.Prelude.{
  ◌+◌, ◌≤◌, false, Option, none, some, List, [], ◌∷◌, ◌++◌, map, length, length-append,
  append_assoc, append_nil, ltb, ◌≡◌, ◌↔◌, refl, sym, ap, subst, ◌∙◌, arith, is_some_and, ok,
  Bool-cases, inl, inr,
}
use weave_auth.Hooks.Webhook.{Byte, HttpAnswer, max_response_bytes, read_chunks, read_limited}

-- The chunks put together.
abbrev pub joined : List (List Byte) → List Byte
joined [] = []
joined (c ∷ cs) = c ++ joined cs

read_chunks_ok :
    (body read : List Byte) (chunks : List (Option (List Byte)))
    → length body ≤ max_response_bytes
    → read_chunks body chunks ≡ ok read
    → (length read ≤ max_response_bytes)
      × (cs : List (List Byte)) × (chunks ≡ map some cs)
      × (read ≡ body ++ joined cs)
unfolding read_chunks
read_chunks_ok body read [] h e =
    (ground (arith, h, e), [], refl, ground (arith, e, append_nil body))
read_chunks_ok body read (none ∷ chunks) h e = cc
read_chunks_ok body read (some c ∷ chunks) h e =
    elim (Bool-cases (ltb max_response_bytes (length body + length c))) [
      | inl t ↦ ground (arith, e, t)
      | inr t ↦
          let (small, cs, same, all) =
            read_chunks_ok (body ++ c) read chunks (ground (arith, t, length-append body c))
              (ground (arith, e, t)) in
          (small, c ∷ cs, ap (λ l. some c ∷ l) same, all ∙ append_assoc body c (joined cs))
    ]

read_chunks_all :
    (body : List Byte) (cs : List (List Byte))
    → length body + length (joined cs) ≤ max_response_bytes
    → read_chunks body (map some cs) ≡ ok (body ++ joined cs)
unfolding read_chunks
read_chunks_all body [] h = ap ok (sym (append_nil body))
read_chunks_all body (c ∷ cs) h = ground (
  arith,
  h,
  read_chunks_all (body ++ c) cs
      (omega (arith, h, length-append body c, length-append c (joined cs))),
  append_assoc body c (joined cs),
  length-append c (joined cs),
)

-- An answer is read exactly when all its chunks could be and they hold no more than a mebibyte, with no
-- greater length announced; and what is read is the chunks put together.
pub read_limited_iff :
    (r : HttpAnswer) (read : List Byte)
    → (read_limited r ≡ ok read) ↔ (
        (is_some_and (λ n. ltb max_response_bytes n) r.content_length ≡ false)
        × (cs : List (List Byte)) × (r.chunks ≡ map some cs)
        × (read ≡ joined cs)
        × (length read ≤ max_response_bytes))
unfolding read_limited
read_limited_iff r read = (
  (λ e. elim (Bool-cases (is_some_and (λ n. ltb max_response_bytes n) r.content_length)) [
    | inl t ↦ ground (arith, e, t)
    | inr t ↦
        let (small, cs, same, all) =
          read_chunks_ok [] read r.chunks (omega arith) (ground (arith, e, t)) in
        (t, cs, same, all, small)
  ]),
  λ h.
      let (announced, cs, same, all, small) = h in
      let bound : length (joined cs) ≤ max_response_bytes =
        subst (λ l. length l ≤ max_response_bytes) all small in
      ground (arith, announced, same, all, read_chunks_all [] cs (omega (arith, bound))),
)
