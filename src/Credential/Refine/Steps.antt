-- ===== src/Credential/Refine/Steps.antt =====
-- src/ngx_auth_webauthn_credential.c on a server that stands for a map: what a read, a write of a record and a write of an index make of it.
use nginx_auth_webauthn.Base.{
  ℕ, Bytes, bytes_eq, bytes_eq_iff, length, true, ◌||◌, Option, some, List, ◌∷◌, ◌≡◌, inl, inr,
  refl, sym, ◌∙◌, ap, subst, Bool-cases,
}
use nginx_auth_webauthn.Base.Rc.{Rc, ok, declined}
use nginx_auth_webauthn.Platform.{Nginx, Command}
use nginx_auth_webauthn.Keys.{record_name, index_name, record_key, index_key}
use nginx_auth_webauthn.Keys.Disjoint.{stored_name_unique}
use nginx_auth_webauthn.Redis.{Client, Exec, ◌>>=◌, lift, redis_hgetall, redis_hset, redis_sadd}
use nginx_auth_webauthn.Redis.Values.{
  StoreLaws, Value, Fields, Members, hash_of, set_of, with_fields,
}
use nginx_auth_webauthn.Redis.Effects.{then_step, Leaves, hset_effect, hgetall_effect, sadd_effect}
use nginx_auth_webauthn.Credential.{Credential, credential_get}
use nginx_auth_webauthn.Credential.AnyOrder.{record_of, parse_record_lem}
use nginx_auth_webauthn.Credential.Abstract.{Registry, found, IsEntry, IsEntry-found}
use nginx_auth_webauthn.Credential.Refine.{set_entry, set_index, StandsFor}

module _ {Server : Type 0} (ng : Nginx) (command : Command Server) (prefix : Bytes)
    (memory : (n : ℕ) → ng.pnalloc n ≡ true) (value : Server → Bytes → Value)
    (laws : StoreLaws command value) where
  pub record_key_lem : (id : Bytes) → record_key ng prefix id ≡ ok (record_name prefix id)
  unfolding record_key
  record_key_lem id = rw (memory (length (record_name prefix id))) refl

  pub index_key_lem : (user : Bytes) → index_key ng prefix user ≡ ok (index_name prefix user)
  unfolding index_key
  index_key_lem user = rw (memory (length (index_name prefix user))) refl

  -- A write to the hash of an id, a write to the set of a user, and a read.
  pub wrote_record :
      (id : Bytes) (f : Fields) (o : Option Credential) (c d : Client Server) (m : Registry)
      → StandsFor ng command prefix memory value laws c m
      → Leaves ng memory command value laws (record_name prefix id) c d (λ v. hash_of v ≡ some f)
      → IsEntry id f o
      → StandsFor ng command prefix memory value laws d (set_entry id o m)
  wrote_record id f o c d m s l e = record {
    live = l.live;
    creds = λ j. elim (Bool-cases (bytes_eq id j)) [
      | inl same ↦ rw same (
        f,
        subst (λ j. hash_of (value d.server (record_name prefix j)) ≡ some f)
            ((bytes_eq_iff id j).0 same) l.here,
        subst (λ j. IsEntry j f o) ((bytes_eq_iff id j).0 same) e,
      )
      | inr other ↦ rw other (
          rw
            (l.elsewhere (record_name prefix j)
              λ h. cc ((bytes_eq_iff id j).1 ((stored_name_unique prefix id j).0 h), other))
            (s.creds j))
    ];
    index = λ user.
        rw (l.elsewhere (index_name prefix user) (stored_name_unique prefix id user).2)
          (s.index user);
  }

  pub wrote_index :
      (user : Bytes) (g : Members) (c d : Client Server) (m : Registry)
      → StandsFor ng command prefix memory value laws c m
      → Leaves ng memory command value laws (index_name prefix user) c d (λ v. set_of v ≡ some g)
      → StandsFor ng command prefix memory value laws d (set_index user g m)
  wrote_index user g c d m s l = record {
    live = l.live;
    creds = λ j.
        rw (l.elsewhere (record_name prefix j) λ h. (stored_name_unique prefix j user).2 (sym h))
          (s.creds j);
    index = λ u. elim (Bool-cases (bytes_eq user u)) [
      | inl same ↦ rw same (
          subst (λ u. set_of (value d.server (index_name prefix u)) ≡ some g)
            ((bytes_eq_iff user u).0 same) l.here)
      | inr other ↦ rw other (
          rw
            (l.elsewhere (index_name prefix u)
              λ h. cc ((bytes_eq_iff user u).1 ((stored_name_unique prefix user u).1 h), other))
            (s.index u))
    ];
  }

  pub only_read :
      (c d : Client Server) (m : Registry)
      → StandsFor ng command prefix memory value laws c m
      → d.connected ≡ true
      → ((j : Bytes) → value d.server j ≡ value c.server j)
      → StandsFor ng command prefix memory value laws d m
  only_read c d m s on same = record {
    live = on;
    creds = λ id. rw (same (record_name prefix id)) (s.creds id);
    index = λ user. rw (same (index_name prefix user)) (s.index user);
  }

  -- A call answers as its counterpart does, and leaves the server that stands for what that leaves.
  abbrev pub Matches : {A : Type 0} → Exec Server A → Client Server → Rc A → Registry → Type 0
  Matches run c r m = ((run c).0 ≡ r) × StandsFor ng command prefix memory value laws (run c).1 m

  -- After a step that is known, the rest of the call.
  pub then_rest :
      {A B : Type 0} (step : Exec Server A) (rest : A → Exec Server B) (c : Client Server) (a : A)
      (r : Rc B) (m : Registry)
      → (step c).0 ≡ ok a
      → Matches (rest a) (step c).1 r m
      → Matches (step >>= rest) c r m
  then_rest step rest c a r m e h =
      subst (λ out. (out.0 ≡ r) × StandsFor ng command prefix memory value laws out.1 m)
        (sym (then_step step rest c e)) h

  pub rest_declined :
      {A B : Type 0} (step : Exec Server A) (rest : A → Exec Server B) (c : Client Server)
      → (step c).0 ≡ declined
      → (step >>= rest) c ≡ (declined, (step c).1)
  rest_declined step rest c e = rw e refl

  pub get-Matches :
      (id : Bytes) (c : Client Server) (m : Registry)
      → StandsFor ng command prefix memory value laws c m
      → Matches (credential_get ng command prefix id) c (found (m.creds id)) m
  unfolding credential_get
  get-Matches id c m s =
      let (f, here, entry) = s.creds id in
      let (pairs, r, unique, same, on, all) =
        hgetall_effect ng memory command value laws (record_name prefix id) c f s.live here in
      then_rest (lift (record_key ng prefix id)) _ c (record_name prefix id) _ m (record_key_lem id)
        (then_rest (redis_hgetall ng command (record_name prefix id)) _ c pairs _ m r (
          parse_record_lem id pairs unique
              ∙ ap (record_of id) (λ i name. same name i)
              ∙ IsEntry-found id f (m.creds id) entry,
          only_read c _ m s on all,
        ))

  pub write-Matches :
      (id : Bytes) (pair : Bytes × Bytes) (pairs : List (Bytes × Bytes)) (o : Option Credential)
      (c : Client Server) (m : Registry)
      → ((f : Fields) → IsEntry id f (m.creds id) → IsEntry id (with_fields (pair ∷ pairs) f) o)
      → StandsFor ng command prefix memory value laws c m
      → Matches
          (redis_hset ng command (record_name prefix id) (pair ∷ pairs))
          c
          (ok tt)
          (set_entry id o m)
  write-Matches id pair pairs o c m written s =
      let (f, here, entry) = s.creds id in
      let (r, left) =
        hset_effect ng memory command value laws (record_name prefix id) pair pairs c f s.live
          here in
      (r, wrote_record id (with_fields (pair ∷ pairs) f) o c _ m s left (written f entry))

  pub add-Matches :
      (id user : Bytes) (c : Client Server) (m : Registry)
      → StandsFor ng command prefix memory value laws c m
      → Matches
          (lift (index_key ng prefix user) >>= λ index. redis_sadd ng command index id)
          c
          (ok tt)
          (set_index user (λ x. bytes_eq id x || m.index user x) m)
  add-Matches id user c m s =
      let (r, left) =
        sadd_effect ng memory command value laws (index_name prefix user) id c _ s.live
          (s.index user) in
      then_rest (lift (index_key ng prefix user)) _ c (index_name prefix user) _ _
        (index_key_lem user) (r, wrote_index user _ c _ m s left)
