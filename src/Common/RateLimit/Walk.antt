-- ===== src/Common/RateLimit/Walk.antt =====
-- A client can't choose the address that it is counted under.
use weave_auth.Prelude.{
  append_assoc, append_nil, ◌∙◌, String, false, List, [], ◌∷◌, ◌++◌, ◌≡◌, inl, inr, refl, sym, ap,
  arith, Bool-cases, Option-cases,
}
use weave_auth.Common.RateLimit.{Network, reverse, walk, client_ip}

reverse-append : (xs ys : List String) → reverse (xs ++ ys) ≡ reverse ys ++ reverse xs
reverse-append [] ys = sym (append_nil (reverse ys))
reverse-append (x ∷ xs) ys =
    ap (λ l. l ++ x ∷ []) (reverse-append xs ys) ∙ append_assoc (reverse ys) (reverse xs) (x ∷ [])

module _ {A : Type 0} (n : Network A) where
  walk-append :
      (client : A) (hops more : List String)
      → n.is_trusted (walk n client hops) ≡ false
      → walk n client (hops ++ more) ≡ walk n client hops
  unfolding walk
  walk-append client [] [] h = refl
  walk-append client [] (m ∷ more) h = ground (arith, h)
  walk-append client (hop ∷ hops) more h = elim (Bool-cases (n.is_trusted client)) [
    | inr t ↦ ground (arith, t)
    | inl t ↦ elim (Option-cases (n.parse_hop hop)) [
      | inl e ↦ ground (arith, t, e)
      | inr (ip, e) ↦ ground (arith, t, e, h, walk-append (n.to_canonical ip) hops more)
    ]
  ]

  -- Where the entries that the proxies appended lead to an address that is no proxy's, entries that
  -- the client sent in front of them change nothing.
  pub client_ip-append :
      (peer : A) (sent appended : List String)
      → n.is_trusted (client_ip n peer appended) ≡ false
      → client_ip n peer (sent ++ appended) ≡ client_ip n peer appended
  unfolding client_ip
  client_ip-append peer sent appended h =
      rw (reverse-append sent appended)
        (walk-append (n.to_canonical peer) (reverse appended) (reverse sent) h)
