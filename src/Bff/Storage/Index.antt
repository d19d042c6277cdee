-- ===== src/Bff/Storage/Index.antt =====
-- What the index by user holds after each change of it.
use weave_auth.Prelude.{
  String, Option, none, some, List, [], ◌∷◌, ◌++◌, ◌≡◌, ◌≢◌, arith, ◌==◌, if◌then◌else◌, without,
  Option-cases, inl, inr, unwrap_or, text_key, number_key,
}
use weave_auth.Maps.{Map, get}
use weave_auth.Maps.Laws.{get-insert, get-remove}
use weave_auth.Bff.Session.{UserId}
use weave_auth.Bff.Storage.{ids_of, put_ids, unindex_ids, unindex, index_id}

abbrev pub Index : Type 0
Index = Map UserId (List String)

-- No user's list is kept when it is empty.
abbrev pub IsPopulated : Index → Type 0
IsPopulated m = (u : UserId) → get u m ≢ some []

ids_of-put_ids :
    (u v : UserId) (ids : List String) (m : Index)
    → ids_of (put_ids u ids m) v ≡ (if u == v then ids else ids_of m v)
unfolding put_ids ids_of
ids_of-put_ids u v [] m = ground (arith, get-remove u v m)
ids_of-put_ids u v (id ∷ ids) m = ground (arith, get-insert u v (id ∷ ids) m)

put_ids-IsPopulated :
    (u : UserId) (ids : List String) (m : Index) → IsPopulated m → IsPopulated (put_ids u ids m)
unfolding put_ids
put_ids-IsPopulated u [] m h v = ground (arith, get-remove u v m, h v)
put_ids-IsPopulated u (id ∷ ids) m h v = ground (arith, get-insert u v (id ∷ ids) m, h v)

ids_of_found :
    (u : UserId) (o : Option (List String)) (m : Index) → get u m ≡ o → ids_of m u ≡ unwrap_or [] o
unfolding ids_of
ids_of_found u o m e = cc

pub ids_of-unindex :
    (id : String) (u v : UserId) (m : Index)
    → ids_of (unindex id u m) v ≡ (if u == v then without id (ids_of m v) else ids_of m v)
unfolding unindex unindex_ids
ids_of-unindex id u v m = elim (Option-cases (get u m)) [
  | inl e ↦ ground (arith, number_key.same_iff u v, ids_of_found u none m e)
  | inr (ids, e) ↦ ground (
    arith,
    ids_of_found u (some ids) m e,
    ids_of-put_ids u v (without id ids) m,
    number_key.same_iff u v,
  )
]

pub unindex-IsPopulated :
    (id : String) (u : UserId) (m : Index) → IsPopulated m → IsPopulated (unindex id u m)
unfolding unindex unindex_ids
unindex-IsPopulated id u m h = elim (Option-cases (get u m)) [
  | inl e ↦ rw (e, unindex_ids) h
  | inr (ids, e) ↦ rw (e, unindex_ids) (put_ids-IsPopulated u (without id ids) m h)
]

pub ids_of-index_id :
    (id : String) (u v : UserId) (m : Index)
    → ids_of (index_id id u m) v ≡ (if u == v then ids_of m u ++ id ∷ [] else ids_of m v)
unfolding index_id ids_of
ids_of-index_id id u v m = ground (arith, get-insert u v (ids_of m u ++ id ∷ []) m)

append-ne-nil : (ids : List String) (id : String) → some (ids ++ id ∷ []) ≢ some []
append-ne-nil [] id e = cc
append-ne-nil (x ∷ ids) id e = cc

pub index_id-IsPopulated :
    (id : String) (u : UserId) (m : Index) → IsPopulated m → IsPopulated (index_id id u m)
unfolding index_id
index_id-IsPopulated id u m h v =
    ground (arith, get-insert u v (ids_of m u ++ id ∷ []) m, append-ne-nil (ids_of m u) id, h v)
