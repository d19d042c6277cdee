-- ===== src/Bff/Storage/Lookup.antt =====
-- What a lookup finds after each change of the store, whatever the index holds.
use weave_auth.Prelude.{
  String, none, some, List, [], ◌∷◌, ◌≡◌, refl, arith, ◌==◌, if◌then◌else◌, contains, text_key,
}
use weave_auth.Maps.{get}
use weave_auth.Maps.Laws.{get-insert, get-remove}
use weave_auth.Bff.Session.{SessionData}
use weave_auth.Bff.Storage.{Sessions, insert_session, drop_found, remove_session, remove_all}

module _ (s : Sessions) (id j : String) where
  pub get-insert_session :
      (d : SessionData)
      → get j (insert_session s id d).by_id ≡ (if id == j then some d else get j s.by_id)
  unfolding insert_session
  get-insert_session d = get-insert id j d s.by_id

  pub get-remove_session :
      get j (remove_session s id).0.by_id ≡ (if id == j then none else get j s.by_id)
  unfolding remove_session drop_found
  get-remove_session = ground (arith, text_key.same_iff id j, get-remove id j s.by_id)

pub found-remove_session : (s : Sessions) (id : String) → (remove_session s id).1 ≡ get id s.by_id
unfolding remove_session drop_found
found-remove_session s id = ground arith

pub get-remove_all :
    (s : Sessions) (ids : List String) (j : String)
    → get j (remove_all s ids).0.by_id ≡ (if contains j ids then none else get j s.by_id)
unfolding remove_all
get-remove_all s [] j = refl
get-remove_all s (id ∷ ids) j =
    ground (arith, get-remove_all (remove_session s id).0 ids j, get-remove_session s id j)
