-- ===== src/Credential/Refine/Run.antt =====
-- src/ngx_auth_webauthn_credential.c: each call does to the map of credentials and to the sets of ids what its abstract counterpart
-- does, and so do any calls in any order.
use nginx_auth_webauthn.Base.{
  ℕ, ◌^◌, ◌<◌, Bytes, bytes_eq, length, codes, ◌==◌, if◌then◌else◌, true, false, not, ◌&&◌, ◌||◌,
  Option, none, some, List, [], ◌∷◌, ◌≡◌, inl, inr, refl, sym, ◌∙◌, ap, ap₂, subst, Bool-cases, All,
}
use nginx_auth_webauthn.Base.Rc.{ok, declined}
use nginx_auth_webauthn.Base.Word.{ℤ}
use nginx_auth_webauthn.Platform.{Nginx, Command}
use nginx_auth_webauthn.Keys.{record_name, index_name, record_key, index_key}
use nginx_auth_webauthn.Redis.{Client, ◌>>=◌, lift, redis_hset, redis_srem, redis_del}
use nginx_auth_webauthn.Redis.Values.{StoreLaws, Value, hash_of}
use nginx_auth_webauthn.Redis.Effects.{del_effect, srem_effect}
use nginx_auth_webauthn.Credential.{
  Credential, record_pairs, credential_get, credential_put, credential_update_counter,
  credential_delete,
}
use nginx_auth_webauthn.Credential.Numeral.{Int64}
use nginx_auth_webauthn.Credential.Record.{IsUsable}
use nginx_auth_webauthn.Credential.Abstract.{
  Registry, merged, found, put-IsEntry, counted, counted-IsEntry,
}
use nginx_auth_webauthn.Credential.Refine.{
  Call, get, put, update_counter, delete, credential, status, IsCall, set_entry, set_index, removed,
  abstractly, run_abstractly, concretely, run_concretely, StandsFor,
}
use nginx_auth_webauthn.Credential.Refine.Steps.{
  record_key_lem, index_key_lem, wrote_record, wrote_index, then_rest, rest_declined, get-Matches,
  write-Matches, add-Matches, Matches,
}

module _ {Server : Type 0} (ng : Nginx) (command : Command Server) (prefix : Bytes)
    (memory : (n : ℕ) → ng.pnalloc n ≡ true) (value : Server → Bytes → Value)
    (laws : StoreLaws command value) where
  put-Matches :
      (cred : Credential) (c : Client Server) (m : Registry)
      → (length cred.credential_id == 0 || length cred.user_id == 0) ≡ false
      → IsUsable cred
      → StandsFor ng command prefix memory value laws c m
      → Matches ng command prefix memory value laws
          (credential_put ng command prefix cred)
          c
          (ok tt)
          (set_index cred.user_id
            (λ x. bytes_eq cred.credential_id x || m.index cred.user_id x)
            (set_entry cred.credential_id (some (merged (m.creds cred.credential_id) cred)) m))
  unfolding credential_put record_pairs
  put-Matches cred c m named usable s =
      let (r, written) =
        write-Matches ng command prefix memory value laws cred.credential_id
          (codes "user_id", cred.user_id) _ (some (merged (m.creds cred.credential_id) cred)) c m
          (λ f e. put-IsEntry cred f (m.creds cred.credential_id) usable e) s in
      rw named (
        then_rest ng command prefix memory value laws
          (lift (record_key ng prefix cred.credential_id)) _ c
          (record_name prefix cred.credential_id) _ _
          (record_key_lem ng command prefix memory value laws cred.credential_id)
          (then_rest ng command prefix memory value laws
            (redis_hset ng command (record_name prefix cred.credential_id) (record_pairs cred)) _ c
            tt _ _ r
            (add-Matches ng command prefix memory value laws cred.credential_id cred.user_id _ _
              written)))

  update-Matches :
      (id : Bytes) (count : ℕ) (time : ℤ) (c : Client Server) (m : Registry)
      → count < 2 ^ 32
      → Int64 time
      → StandsFor ng command prefix memory value laws c m
      → Matches ng command prefix memory value laws
          (credential_update_counter ng command prefix id count time)
          c
          (ok tt)
          (set_entry id (counted count time (m.creds id)) m)
  unfolding credential_update_counter
  update-Matches id count time c m n t s =
      then_rest ng command prefix memory value laws (lift (record_key ng prefix id)) _ c
        (record_name prefix id) _ _ (record_key_lem ng command prefix memory value laws id)
        (write-Matches ng command prefix memory value laws id _ _ (counted count time (m.creds id))
          c m (λ f e. counted-IsEntry id f (m.creds id) count time n t e) s)

  forget-Matches :
      (id user : Bytes) (c : Client Server) (m : Registry)
      → StandsFor ng command prefix memory value laws c m
      → Matches ng command prefix memory value laws
          (if length user == 0
            then lift (ok tt)
            else (lift (index_key ng prefix user) >>= λ index. redis_srem ng command index id))
          c
          (ok tt)
          (if length user == 0
            then m
            else set_index user (λ x. not (bytes_eq id x) && m.index user x) m)
  forget-Matches id user c m s = elim (Bool-cases (length user == 0)) [
    | inl e ↦ rw e (refl, s)
    | inr e ↦
        let (r, left) =
          srem_effect ng memory command value laws (index_name prefix user) id c _ s.live
            (s.index user) in
        rw e (
          then_rest ng command prefix memory value laws (lift (index_key ng prefix user)) _ c
            (index_name prefix user) _ _ (index_key_lem ng command prefix memory value laws user)
            (r, wrote_index ng command prefix memory value laws user _ c _ m s left))
  ]

  drop-Matches :
      (id : Bytes) (c : Client Server) (m : Registry)
      → StandsFor ng command prefix memory value laws c m
      → Matches ng command prefix memory value laws
          (redis_del ng command (record_name prefix id))
          c
          (ok tt)
          (set_entry id none m)
  drop-Matches id c m s =
      let (r, left) = del_effect ng memory command value laws (record_name prefix id) c s.live in
      (
        r,
        wrote_record ng command prefix memory value laws id (λ name. none) none c _ m s
            (record { live = left.live; here = ap hash_of left.here; elsewhere = left.elsewhere })
            (record { no_key = refl; no_aaguid = refl; no_transports = refl }),
      )

  delete_found :
      (id : Bytes) (cred : Credential) (c : Client Server) (m : Registry)
      → m.creds id ≡ some cred
      → StandsFor ng command prefix memory value laws c m
      → Matches ng command prefix memory value laws
          (credential_delete ng command prefix id)
          c
          (ok tt)
          (removed id (some cred) m).1
  unfolding credential_delete
  delete_found id cred c m e s =
      let (r, read) = get-Matches ng command prefix memory value laws id c m s in
      let (gone, left) = drop-Matches id (credential_get ng command prefix id c).1 m read in
      then_rest ng command prefix memory value laws (credential_get ng command prefix id) _ c cred _
        _ (r ∙ ap found e)
        (then_rest ng command prefix memory value laws (lift (record_key ng prefix id)) _ _
          (record_name prefix id) _ _ (record_key_lem ng command prefix memory value laws id)
          (then_rest ng command prefix memory value laws
            (redis_del ng command (record_name prefix id)) _ _ tt _ _ gone
            (forget-Matches id cred.user_id _ (set_entry id none m) left)))

  delete_absent :
      (id : Bytes) (c : Client Server) (m : Registry)
      → m.creds id ≡ none
      → StandsFor ng command prefix memory value laws c m
      → Matches ng command prefix memory value laws
          (credential_delete ng command prefix id)
          c
          declined
          m
  unfolding credential_delete
  delete_absent id c m e s =
      let (r, read) = get-Matches ng command prefix memory value laws id c m s in
      subst (λ out. (out.0 ≡ declined) × StandsFor ng command prefix memory value laws out.1 m)
        (sym (
          rest_declined ng command prefix memory value laws (credential_get ng command prefix id) _
            c (r ∙ ap found e)))
        (refl, read)

  pub delete-Matches :
      (id : Bytes) (c : Client Server) (m : Registry)
      → StandsFor ng command prefix memory value laws c m
      → Matches ng command prefix memory value laws
          (credential_delete ng command prefix id)
          c
          (removed id (m.creds id) m).0
          (removed id (m.creds id) m).1
  delete-Matches id c m s = by_entry (m.creds id) refl
    where
      by_entry :
          (o : Option Credential)
          → m.creds id ≡ o
          → Matches ng command prefix memory value laws
              (credential_delete ng command prefix id)
              c
              (removed id o m).0
              (removed id o m).1
      by_entry none e = delete_absent id c m e s
      by_entry (some cred) e = delete_found id cred c m e s

  call_matches :
      (call : Call) (c : Client Server) (m : Registry)
      → IsCall call
      → StandsFor ng command prefix memory value laws c m
      → ((concretely ng command prefix call c).0 ≡ (abstractly call m).0)
        × StandsFor ng command prefix memory value laws
            (concretely ng command prefix call c).1
            (abstractly call m).1
  unfolding concretely abstractly
  call_matches (get id) c m v s =
      let (r, t) = get-Matches ng command prefix memory value laws id c m s in (ap credential r, t)
  call_matches (put cred) c m v s =
      elim (Bool-cases (length cred.credential_id == 0 || length cred.user_id == 0)) [
        | inl e ↦ unfold credential_put in rw e (refl, s)
        | inr e ↦ let (r, t) = put-Matches cred c m e v s in rw e (ap status r, t)
      ]
  call_matches (update_counter id count time) c m (n, v) s =
      let (r, t) = update-Matches id count time c m n v s in (ap status r, t)
  call_matches (delete id) c m v s = let (r, t) = delete-Matches id c m s in (ap status r, t)

  -- Reads, updates and deletions of credentials, and writes of usable ones, with numbers in the ranges of their types,
  -- in any order: where memory suffices and the connection lives, a server that keeps the laws of its values and stands
  -- for a map from ids to credentials and for sets of ids gives the answers that the map gives, and stands in the end
  -- for what the map has become. A credential written over another keeps the AAGUID and the transports of that one
  -- where it has none of its own.
  pub run_concretely-run_abstractly :
      (calls : List Call) (c : Client Server) (m : Registry)
      → All IsCall calls
      → StandsFor ng command prefix memory value laws c m
      → ((run_concretely ng command prefix calls c).0 ≡ (run_abstractly calls m).0)
        × StandsFor ng command prefix memory value laws
            (run_concretely ng command prefix calls c).1
            (run_abstractly calls m).1
  unfolding run_concretely run_abstractly
  run_concretely-run_abstractly [] c m v s = (refl, s)
  run_concretely-run_abstractly (call ∷ calls) c m (v, vs) s =
      let (r, t) = call_matches call c m v s in
      let (rs, ts) =
        run_concretely-run_abstractly calls (concretely ng command prefix call c).1
          (abstractly call m).1 vs t in
      (ap₂ (λ a answers. a ∷ answers) r rs, ts)
