-- ===== src/Login/Fields/Reading.antt =====
-- What reading the members of a JSON body one by one says of them all.
use weave_auth.Prelude.{
  sym, subst, Option, String, Bool, true, false, none, some, ◌≡◌, arith, text_key, Option-cases,
  inl, inr, ◌⊎◌,
}
use weave_auth.Json.{Json, text, Members, no_members, member, as_text}
use weave_auth.Login.Fields.{from_members, LoginFields, read_member}

-- No member has a key that is read.
abbrev pub NoneRead : (String → Bool) → Members → Type 0
NoneRead reads no_members = Unit {0}
NoneRead reads (member name value ms) = (reads name ≡ false) × NoneRead reads ms

-- Exactly one member has a key that is read, and its value is that text.
abbrev pub OneReads : (String → Bool) → Members → String → Type 0
OneReads reads no_members t = ⊥
OneReads reads (member name value ms) t =
    ((reads name ≡ true) × (value ≡ text t) × NoneRead reads ms)
    ⊎ ((reads name ≡ false) × OneReads reads ms t)

abbrev pub IsRead : (String → Bool) → Members → Option String → Type 0
IsRead reads ms none = NoneRead reads ms
IsRead reads ms (some t) = OneReads reads ms t

-- What reading one member does to a field: nothing, or it sets it, and then for the first time.
abbrev pub ReadsStep : (String → Bool) → (LoginFields → Option String) → Type 0
ReadsStep reads field =
    (f g : LoginFields) (name : String) (value : Json)
    → read_member f name value ≡ some g
    → ((reads name ≡ false) × (field g ≡ field f) × (g.repeated ≡ false → f.repeated ≡ false))
      ⊎ ((reads name ≡ true)
          × (t : String) × (value ≡ text t)
          × (field g ≡ some t)
          × (g.repeated ≡ false → (f.repeated ≡ false) × (field f ≡ none)))

same_fields : (f g : LoginFields) → some f ≡ some g → f ≡ g
same_fields f g h = cc

module _ (reads : String → Bool) (field : LoginFields → Option String)
    (step : ReadsStep reads field) where
  -- What reading the members from `f` on to `g`, without a repetition, says of them.
  pub record Read (ms : Members) (f g : LoginFields) : Type 0 where
    first : f.repeated ≡ false
    kept : (i : String) → field f ≡ some i → (field g ≡ some i) × NoneRead reads ms
    pub fresh : field f ≡ none → IsRead reads ms (field g)

  not_read :
      (name : String) (value : Json) (ms : Members) (o : Option String)
      → reads name ≡ false
      → IsRead reads ms o
      → IsRead reads (member name value ms) o
  not_read name value ms none h rest = (h, rest)
  not_read name value ms (some t) h rest = inr (h, rest)

  pub from_members_lem :
      (ms : Members) (f g : LoginFields)
      → from_members ms f ≡ some g
      → g.repeated ≡ false
      → Read ms f g
  unfolding from_members
  from_members_lem no_members f g h r =
      let same = same_fields f g h in
      record {
        first = subst (λ x. x.repeated ≡ false) (sym same) r;
        kept = λ i e. (subst (λ x. field x ≡ some i) same e, tt);
        fresh = λ e.
            subst (λ x. IsRead reads no_members (field x)) same
              (subst (IsRead reads no_members) (sym e) tt);
      }
  from_members_lem (member name value ms) f g h r = elim (Option-cases (read_member f name value)) [
    | inl e ↦ ground (arith, h, e)
    | inr (m, e) ↦
        let rest = from_members_lem ms m g (ground (arith, h, e)) r in
        elim (step f m name value e) [
          | inl (other, same, before) ↦ record {
            first = before rest.first;
            kept = λ i o. let (a, b) = rest.kept i (ground (arith, same, o)) in (a, (other, b));
            fresh =
                λ o. not_read name value ms (field g) other (rest.fresh (ground (arith, same, o)));
          }
          | inr (read, t, v, now, before) ↦
              let (unrepeated, none_before) = before rest.first in
              let (last, none_after) = rest.kept t now in
              record {
                first = unrepeated;
                kept = λ i o. ground (arith, o, none_before);
                fresh = λ o.
                    subst (IsRead reads (member name value ms)) (sym last)
                      (inl (read, v, none_after));
              }
        ]
  ]

pub as_text_lem : (v : Json) (t : String) → as_text v ≡ some t → v ≡ text t
as_text_lem (text s) t h = ground (arith, h)
as_text_lem Json.null t h = cc
as_text_lem (Json.boolean b) t h = cc
as_text_lem (Json.integer n) t h = cc
as_text_lem Json.fraction t h = cc
as_text_lem (Json.array es) t h = cc
as_text_lem (Json.object ms) t h = cc
