-- ===== src/Login/Fields/Counted.antt =====
-- The throttle reads a JSON body the way Kratos does.
use weave_auth.Prelude.{
  ◌&&◌, is_none_or, only_if, subst, Option, String, Bool, true, false, none, some, contains, ◌≡◌,
  ◌≢◌, refl, arith, ◌==◌, ◌||◌, ap, text_key, Bool-cases, Option-cases, inl, inr, ◌⊎◌,
}
use weave_auth.Json.{Json, text, Members, as_text}
use weave_auth.Texts.{eq_ignore_ascii_case, is_ascii, is_blank}
use weave_auth.Login.Fields.{
  not, no_fields, from_json, LoginFields, set_method, set_identifier, known_keys, read_member,
  throttled_identifier,
}
use weave_auth.Login.Fields.Reading.{
  NoneRead, OneReads, IsRead, ReadsStep, from_members_lem, as_text_lem,
}

-- How Kratos matches a member's name with a key: Go's JSON library folds the case of both. Of an ASCII
-- name that is the comparison without regard to ASCII case; of others it is any.
abbrev pub FoldsAscii : (String → String → Bool) → Type 0
FoldsAscii folds =
    (key name : String) → is_ascii name ≡ true → folds key name ≡ eq_ignore_ascii_case key name

abbrev pub reads_as_method : (String → String → Bool) → String → Bool
reads_as_method folds name = folds "method" name

abbrev pub reads_as_identifier : (String → String → Bool) → String → Bool
reads_as_identifier folds name = folds "identifier" name || folds "password_identifier" name

abbrev counted : Option String → Option String → Option String
counted method identifier =
    only_if (λ a. is_none_or (λ m. m == "password") method && not (is_blank a)) identifier

module _ (folds : String → String → Bool) (plain : FoldsAscii folds) where
  method_key :
      (reads_as_method folds "method" ≡ true) × (reads_as_identifier folds "method" ≡ false)
  unfolding eq_ignore_ascii_case is_ascii
  method_key = (
    plain "method" "method" refl,
    ground (arith, plain "identifier" "method" refl, plain "password_identifier" "method" refl),
  )

  identifier_keys :
      (name : String)
      → (name ≡ "identifier") ⊎ (name ≡ "password_identifier")
      → (reads_as_method folds name ≡ false) × (reads_as_identifier folds name ≡ true)
  unfolding eq_ignore_ascii_case is_ascii
  identifier_keys name (inl e) =
      rw e (plain "method" "identifier" refl, ground (arith, plain "identifier" "identifier" refl))
  identifier_keys name (inr e) = rw e (
    plain "method" "password_identifier" refl,
    ground (arith, plain "password_identifier" "password_identifier" refl),
  )

  module _ (f g : LoginFields) (name : String) (value : Json)
      (h : read_member f name value ≡ some g) where
    -- A member is not one of the two, or the method, or the identifier.
    read_member-cases :
        ((reads_as_method folds name ≡ false) × (reads_as_identifier folds name ≡ false) × (g ≡ f))
        ⊎ ((t : String) × (value ≡ text t)
            × (((name ≡ "method") × (g ≡ set_method f t))
                ⊎ (((name ≡ "identifier") ⊎ (name ≡ "password_identifier"))
                    × (g ≡ set_identifier f t))))
    unfolding read_member
    read_member-cases = elim (Bool-cases (contains name known_keys)) [
      | inr unknown ↦ inl (
        ground (arith, h, unknown, plain "method" name),
        ground (arith, h, unknown, plain "identifier" name, plain "password_identifier" name),
        ground (arith, h, unknown),
      )
      | inl known ↦ elim (Option-cases (as_text value)) [
        | inl e ↦ ground (arith, h, known, e)
        | inr (t, e) ↦ inr (
          t,
          as_text_lem value t e,
          elim (Bool-cases (name == "method")) [
            | inl m ↦ inl ((text_key.same_iff name "method").0 m, ground (arith, h, known, e, m))
            | inr m ↦ inr (
              ground (
                arith,
                known,
                m,
                text_key.same_iff name "method",
                text_key.same_iff "method" name,
                text_key.same_iff "identifier" name,
                text_key.same_iff "password_identifier" name,
              ),
              ground (arith, h, known, e, m),
            )
          ],
        )
      ]
    ]

  step_identifier : ReadsStep (reads_as_identifier folds) (λ f. f.identifier)
  unfolding set_method set_identifier
  step_identifier f g name value h = elim (read_member-cases f g name value h) [
    | inl (_, other, same) ↦ inl (other, ap (λ x. x.identifier) same, ground (arith, same))
    | inr (t, v, inl (n, same)) ↦
        inl (
          rw n method_key.1,
          ap (λ x. x.identifier) same,
          ground (arith, ap (λ x. x.repeated) same),
        )
    | inr (t, v, inr (n, same)) ↦ inr (
      (identifier_keys name n).1,
      t,
      v,
      ap (λ x. x.identifier) same,
      ground (arith, ap (λ x. x.repeated) same, Option-cases f.identifier),
    )
  ]

  step_method : ReadsStep (reads_as_method folds) (λ f. f.method)
  unfolding set_method set_identifier
  step_method f g name value h = elim (read_member-cases f g name value h) [
    | inl (other, _, same) ↦ inl (other, ap (λ x. x.method) same, ground (arith, same))
    | inr (t, v, inr (n, same)) ↦ inl (
      (identifier_keys name n).0,
      ap (λ x. x.method) same,
      ground (arith, ap (λ x. x.repeated) same),
    )
    | inr (t, v, inl (n, same)) ↦ inr (
      rw n method_key.0,
      t,
      v,
      ap (λ x. x.method) same,
      ground (arith, ap (λ x. x.repeated) same, Option-cases f.method),
    )
  ]

  module _ (ms : Members) where
    -- What is counted of a method and an identifier that were read.
    counted_lem :
        (method identifier : Option String) (i : String)
        → IsRead (reads_as_method folds) ms method
        → IsRead (reads_as_identifier folds) ms identifier
        → counted method identifier ≡ some i
        → OneReads (reads_as_identifier folds) ms i
          × (is_blank i ≡ false)
          × (NoneRead (reads_as_method folds) ms ⊎ OneReads (reads_as_method folds) ms "password")
    counted_lem method none i h k e = cc
    counted_lem none (some a) i h k e =
        let same : a ≡ i = ground (arith, e) in
        (subst (OneReads (reads_as_identifier folds) ms) same k, ground (arith, e), inl h)
    counted_lem (some m) (some a) i h k e =
        let same : a ≡ i = ground (arith, e) in
        let password : m ≡ "password" = ground (arith, e, text_key.same_iff m "password") in
        (
          subst (OneReads (reads_as_identifier folds) ms) same k,
          ground (arith, e),
          inr (subst (OneReads (reads_as_method folds) ms) password h),
        )

    uncounted_lem :
        (method identifier : Option String)
        → IsRead (reads_as_method folds) ms method
        → IsRead (reads_as_identifier folds) ms identifier
        → counted method identifier ≡ none
        → NoneRead (reads_as_identifier folds) ms
          ⊎ (((i : String) × (is_blank i ≡ true) × OneReads (reads_as_identifier folds) ms i)
              ⊎ ((m : String) × (m ≢ "password") × OneReads (reads_as_method folds) ms m))
    uncounted_lem method none h k e = inl k
    uncounted_lem none (some a) h k e = inr (inl (a, ground (arith, e), k))
    uncounted_lem (some m) (some a) h k e = elim (Bool-cases (is_blank a)) [
      | inl b ↦ inr (inl (a, b, k))
      | inr b ↦ inr (inr (m, (λ q. ground (arith, e, b, q, text_key.same_iff m "password")), h))
    ]

  -- A JSON body that is let past the throttle says one thing, however Kratos matches the names that are
  -- not ASCII. If the throttle counts a text, then exactly one member can be read as the identifier, that
  -- text, and at most one as the method, `password`. If it counts none, then no member can be read as
  -- the identifier, or exactly one, a blank text, or exactly one as the method, not `password`.
  pub from_json_unambiguous :
      (ms : Members) (f : LoginFields)
      → from_json (some ms) ≡ some f
      → f.repeated ≡ false
      → ((i : String)
          → throttled_identifier f ≡ some i
          → OneReads (reads_as_identifier folds) ms i
            × (is_blank i ≡ false)
            × (NoneRead (reads_as_method folds) ms
                ⊎ OneReads (reads_as_method folds) ms "password"))
        × (throttled_identifier f ≡ none
            → NoneRead (reads_as_identifier folds) ms
              ⊎ (((i : String) × (is_blank i ≡ true) × OneReads (reads_as_identifier folds) ms i)
                  ⊎ ((m : String) × (m ≢ "password") × OneReads (reads_as_method folds) ms m)))
  unfolding from_json throttled_identifier
  from_json_unambiguous ms f h r =
      let identifier =
        (from_members_lem (reads_as_identifier folds) (λ x. x.identifier) step_identifier ms
            no_fields f h r).fresh
          refl in
      let method =
        (from_members_lem (reads_as_method folds) (λ x. x.method) step_method ms no_fields f h
            r).fresh
          refl in
      (
        λ i. counted_lem ms f.method f.identifier i method identifier,
        uncounted_lem ms f.method f.identifier method identifier,
      )
