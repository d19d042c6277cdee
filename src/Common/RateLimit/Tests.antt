-- ===== src/Common/RateLimit/Tests.antt =====
-- A client that sends an entry of its own through one proxy. Addresses are numbers, below 10 the
-- proxies'.
use weave_auth.Prelude.{
  ℕ, false, none, some, [], ◌∷◌, ◌++◌, ◌≡◌, refl, ltb, if◌then◌else◌, ◌==◌, text_key,
}
use weave_auth.Common.RateLimit.{Network, walk, client_ip}
use weave_auth.Common.RateLimit.Walk.{client_ip-append}

abbrev network : Network ℕ
network = record {
  is_trusted = λ ip. ltb ip 10;
  parse_hop =
      λ hop. (if hop == "eleven" then some 11 else if hop == "twelve" then some 12 else none);
  to_canonical = λ ip. ip;
}

not_a_proxy : network.is_trusted (client_ip network 1 ("eleven" ∷ [])) ≡ false
unfolding client_ip walk
not_a_proxy = refl

client_ip-append_example :
    client_ip network 1 (("twelve" ∷ []) ++ "eleven" ∷ []) ≡ client_ip network 1 ("eleven" ∷ [])
client_ip-append_example = client_ip-append network 1 ("twelve" ∷ []) ("eleven" ∷ []) not_a_proxy
