-- ===== src/Hooks/ProfileApi/Required.antt =====
-- What a sign-up whose fields were collected has of the APIs that it requires.
use weave_auth.Prelude.{
  text_key, ok_same, is_some, ◌==◌, is_some, sym, subst, String, Bool, true, false, Option, none,
  some, List, [], ◌∷◌, ◌≡◌, refl, arith, any, All, Result, ok, err, map_ok, steps_ok, Option-cases,
  Bool-cases, inl, inr,
}
use weave_auth.Maps.{get, insert}
use weave_auth.Maps.Laws.{get-insert}
use weave_auth.Hooks.ProfileApi.{
  extend, partial, ProfileApiConfig, Fields, declined, select, complete, ProfileApiFields,
  CallFailed, merged, merge_all, collect_with, collect,
}

-- All fields of the first are among the second's.
abbrev pub Carried : Fields → Fields → Type 0
Carried found fields = (k : String) → is_some (get k found) ≡ true → is_some (get k fields) ≡ true

-- An API was called with the user's token and answered in full, and its fields were collected.
abbrev pub IsComplete :
    (ProfileApiConfig → String → Result CallFailed ProfileApiFields)
    → Option String
    → Fields
    → ProfileApiConfig
    → Type 0
IsComplete fetch access_token fields api =
    (token : String) × (access_token ≡ some token)
    × (found : Fields) × (fetch api token ≡ ok (complete found))
    × Carried found fields

abbrev pub IsServed :
    (ProfileApiConfig → String → Result CallFailed ProfileApiFields)
    → Option (List String)
    → Option String
    → Fields
    → ProfileApiConfig
    → Type 0
IsServed fetch granted access_token fields api =
    api.required ≡ true → (declined granted api ≡ none) × IsComplete fetch access_token fields api

pub insert-Carried : (k value : String) (fields : Fields) → Carried fields (insert k value fields)
insert-Carried k value fields j h = ground (arith, h, get-insert k j value fields)

extend-Carried :
    (found fields : Fields)
    → Carried fields (extend fields found) × Carried found (extend fields found)
unfolding get
extend-Carried [] fields = ((λ k h. h), λ k h. ground (arith, h))
extend-Carried ((name, value) ∷ found) fields =
    let (before, after) = extend-Carried found (insert name value fields) in
    (
      λ k h. before k (insert-Carried name value fields k h),
      λ k h. elim (Bool-cases (name == k)) [
        | inl e ↦ before k (ground (arith, e, get-insert name k value fields))
        | inr e ↦ after k (ground (arith, h, e))
      ],
    )

extended :
    (found fields more : Fields)
    → extend fields found ≡ more
    → Carried fields more × Carried found more
extended found fields more same =
    let (a, b) = extend-Carried found fields in
    (subst (Carried fields) same a, subst (Carried found) same b)

merged-Carried :
    (required : Bool) (fields more : Fields) (r : Result CallFailed ProfileApiFields)
    → merged required fields r ≡ ok more
    → Carried fields more × ((found : Fields) → r ≡ ok (complete found) → Carried found more)
unfolding merged
merged-Carried required fields more (ok (complete found)) h =
    let (a, b) = extended found fields more (ok_same refl h) in
    (a, λ f e. subst (λ x. Carried x more) (ground (arith, e)) b)
merged-Carried true fields more (ok (partial found missing)) h = cc
merged-Carried false fields more (ok (partial found missing)) h =
    ((extended found fields more (ok_same refl h)).0, λ f e. cc)
merged-Carried true fields more (err cause) h = cc
merged-Carried false fields more (err cause) h =
    (subst (Carried fields) (ok_same refl h) (λ k q. q), λ f e. cc)

pub All-map :
    (P Q : ProfileApiConfig → Type 0) (apis : List ProfileApiConfig)
    → ((api : ProfileApiConfig) → P api → Q api)
    → All P apis
    → All Q apis
All-map P Q [] f h = tt
All-map P Q (api ∷ apis) f h = (f api h.0, All-map P Q apis f h.1)

merged_ok :
    (required : Bool) (fields more : Fields) (r : Result CallFailed ProfileApiFields)
    → merged required fields r ≡ ok more
    → required ≡ true
    → (found : Fields) × (r ≡ ok (complete found))
unfolding merged
merged_ok required fields more (ok (complete found)) h q = (found, refl)
merged_ok required fields more (ok (partial found missing)) h q = ground (arith, h, q)
merged_ok required fields more (err cause) h q = ground (arith, h, q)

merge_all_ok :
    (fetch : ProfileApiConfig → Result CallFailed ProfileApiFields) (fields all : Fields)
    (apis : List ProfileApiConfig)
    → merge_all fetch fields apis ≡ ok all
    → Carried fields all
      × All
          (λ api.
            api.required ≡ true
            → (found : Fields) × (fetch api ≡ ok (complete found)) × Carried found all)
          apis
unfolding merge_all
merge_all_ok fetch fields all [] h = (subst (Carried fields) (ok_same refl h) (λ k q. q), tt)
merge_all_ok fetch fields all (api ∷ apis) h =
    let (more, e, rest) = steps_ok (merged api.required fields (fetch api)) _ h in
    let (before, own) = merged-Carried api.required fields more (fetch api) e in
    let (after, others) = merge_all_ok fetch more all apis rest in
    (
      λ k q. after k (before k q),
      (
        λ q.
            let (found, f) = merged_ok api.required fields more (fetch api) e q in
            (found, f, λ k g. after k (own found f k g)),
        others,
      ),
    )

none_required :
    (Q : ProfileApiConfig → Type 0) (apis : List ProfileApiConfig)
    → any (λ api. api.required) apis ≡ false
    → All (λ api. api.required ≡ true → Q api) apis
none_required Q [] h = tt
none_required Q (api ∷ apis) h =
    (λ q. absurd (ground (arith, h, q)), none_required Q apis (ground (arith, h)))

map_ok_ok :
    {E A B : Type 0} (f : A → B) (r : Result E A) (b : B)
    → map_ok f r ≡ ok b
    → (a : A) × (r ≡ ok a) × (f a ≡ b)
map_ok_ok f (ok a) b h = (a, refl, ground (arith, h))
map_ok_ok f (err e) b h = cc

select_ok :
    (Q : ProfileApiConfig → Type 0) (granted : Option (List String))
    (apis selected : List ProfileApiConfig)
    → select granted apis ≡ ok selected
    → All (λ api. api.required ≡ true → Q api) selected
    → All (λ api. api.required ≡ true → (declined granted api ≡ none) × Q api) apis
unfolding select
select_ok Q granted [] selected h served = tt
select_ok Q granted (api ∷ apis) selected h served = elim (Option-cases (declined granted api)) [
  | inr (scope, e) ↦ elim (Bool-cases api.required) [
    | inl q ↦ ground (arith, h, e, q)
    | inr q ↦ (
      λ q'. absurd (ground (arith, q, q')),
      select_ok Q granted apis selected (ground (arith, h, e, q)) served,
    )
  ]
  | inl e ↦
      let (chosen, f, same) =
        map_ok_ok (λ chosen. api ∷ chosen) (select granted apis) selected (ground (arith, h, e)) in
      let served' : All (λ a. a.required ≡ true → Q a) (api ∷ chosen) =
        subst (All (λ a. a.required ≡ true → Q a)) (sym same) served in
      (λ q. (e, served'.0 q), select_ok Q granted apis chosen f served'.1)
]

-- If the fields of a sign-up were collected, then each API that the configuration requires had its
-- scope granted, was called with the token that Kratos stored, answered in full, and has its fields
-- among the collected ones.
pub collect-required :
    (fetch : ProfileApiConfig → String → Result CallFailed ProfileApiFields)
    (apis : List ProfileApiConfig) (access_token : Option String) (granted : Option (List String))
    (fields : Fields)
    → collect fetch apis access_token granted ≡ ok fields
    → All (IsServed fetch granted access_token fields) apis
unfolding collect collect_with
collect-required fetch apis (some token) granted fields h =
    let (selected, e, rest) = steps_ok (select granted apis) _ h in
    select_ok (IsComplete fetch (some token) fields) granted apis selected e (
      All-map
        (λ api.
          api.required ≡ true
          → (found : Fields) × (fetch api token ≡ ok (complete found)) × Carried found fields)
        (λ api. api.required ≡ true → IsComplete fetch (some token) fields api) selected
        (λ api f q. let (found, e, carried) = f q in (token, refl, found, e, carried))
        (merge_all_ok (λ api. fetch api token) [] fields selected rest).1)
collect-required fetch apis none granted fields h =
    let (selected, e, rest) = steps_ok (select granted apis) _ h in
    select_ok (IsComplete fetch none fields) granted apis selected e
      (none_required (IsComplete fetch none fields) selected (ground (arith, rest)))
