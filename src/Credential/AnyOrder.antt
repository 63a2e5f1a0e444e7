-- ===== src/Credential/AnyOrder.antt =====
-- src/ngx_auth_webauthn_credential.c reads the fields of a hash in the order in which Redis lists them. What it reads does not
-- depend on that order.
use nginx_auth_webauthn.Base.{
  ℕ, suc, ◌^◌, Bytes, bytes_eq, bytes_eq_iff, length, codes, ltb, ◌==◌, if◌then◌else◌, false, ◌||◌,
  Option, none, some, List, [], ◌∷◌, ◌≡◌, inl, inr, refl, sym, ◌∙◌, ap, arith, Bool-cases, String,
  subst,
}
use nginx_auth_webauthn.Base.Rc.{Rc, ok, declined, error, ◌>>=◌}
use nginx_auth_webauthn.Base.Word.{ℤ, pos, negsuc, int_eq}
use nginx_auth_webauthn.Redis.Values.{Fields, with_field, lookup, IsUnique}
use nginx_auth_webauthn.Credential.{
  Credential, blank, fits_int32, set_alg, set_sign_count, read_time, set_field, set_fields,
  parse_record, atoi64,
}

-- Each member of a record as its field says, or as it was where there is no such field.
abbrev pub text_or : Bytes → Option Bytes → Bytes
text_or old none = old
text_or old (some v) = v

abbrev pub time_or : ℤ → Option Bytes → ℤ
time_or old none = old
time_or old (some v) = read_time (atoi64 v) old

abbrev pub aaguid_or : Option Bytes → Option Bytes → Option Bytes
aaguid_or old none = old
aaguid_or old (some v) = if length v == 16 then some v else old

abbrev pub int32 : Rc ℤ → Rc ℤ
int32 (ok v) = if fits_int32 v then ok v else declined
int32 declined = declined
int32 error = declined

abbrev pub uint32 : Rc ℤ → Rc ℕ
uint32 (ok (pos n)) = if ltb n (2 ^ 32) then ok n else declined
uint32 (ok (negsuc n)) = declined
uint32 declined = declined
uint32 error = declined

abbrev pub alg_or : ℤ → Option Bytes → Rc ℤ
alg_or old none = ok old
alg_or old (some v) = int32 (atoi64 v)

abbrev pub count_or : ℕ → Option Bytes → Rc ℕ
count_or old none = ok old
count_or old (some v) = uint32 (atoi64 v)

abbrev pub filled : Fields → Credential → ℤ → ℕ → Credential
filled f c alg count = record {
  credential_id = c.credential_id;
  user_id = text_or c.user_id (f (codes "user_id"));
  public_key = text_or c.public_key (f (codes "public_key"));
  alg = alg;
  sign_count = count;
  created_at = time_or c.created_at (f (codes "created_at"));
  last_used_at = time_or c.last_used_at (f (codes "last_used_at"));
  aaguid = aaguid_or c.aaguid (f (codes "aaguid"));
  transports = text_or c.transports (f (codes "transports"));
}

unfoldable pub overlay : Fields → Credential → Rc Credential
overlay f c = alg_or c.alg (f (codes "alg")) >>= λ alg.
    count_or c.sign_count (f (codes "sign_count")) >>= λ count. ok (filled f c alg count)

-- The credential that the fields of a hash make up, by their names.
unfoldable pub record_of : Bytes → Fields → Rc Credential
record_of id f = overlay f (blank id) >>= λ c.
    if length c.public_key == 0 || int_eq c.alg (pos 0) then declined else ok c

bind_cong :
    {A B : Type 0} (r : Rc A) {f g : A → Rc B} → ((a : A) → f a ≡ g a) → (r >>= f) ≡ (r >>= g)
bind_cong (ok a) h = h a
bind_cong declined h = refl
bind_cong error h = refl

set_alg-overlay :
    (r : Rc ℤ) (f : Fields) (c : Credential)
    → f (codes "alg") ≡ none
    → (set_alg r c >>= overlay f) ≡ (
        int32 r >>= λ alg.
        count_or c.sign_count (f (codes "sign_count")) >>= λ count. ok (filled f c alg count))
unfolding set_alg overlay
set_alg-overlay (ok v) f c h = elim (Bool-cases (fits_int32 v)) [
  | inl fits ↦ rw fits (rw h refl)
  | inr over ↦ rw over refl
]
set_alg-overlay declined f c h = refl
set_alg-overlay error f c h = refl

declined_first :
    (old : ℤ) (o : Option Bytes) (g : ℤ → Rc Credential)
    → ((a : ℤ) → g a ≡ declined)
    → declined ≡ (alg_or old o >>= g)
declined_first old none g h = sym (h old)
declined_first old (some v) g h = by_number (atoi64 v)
  where
    by_number : (r : Rc ℤ) → declined ≡ (int32 r >>= g)
    by_number (ok a) = elim (Bool-cases (fits_int32 a)) [
      | inl fits ↦ rw fits (sym (h a))
      | inr over ↦ rw over refl
    ]
    by_number declined = refl
    by_number error = refl

set_count-overlay :
    (r : Rc ℤ) (f : Fields) (c : Credential)
    → f (codes "sign_count") ≡ none
    → (set_sign_count r c >>= overlay f)
      ≡ (alg_or c.alg (f (codes "alg")) >>= λ alg. uint32 r >>= λ count. ok (filled f c alg count))
unfolding set_sign_count overlay
set_count-overlay (ok (pos n)) f c h = elim (Bool-cases (ltb n (2 ^ 32))) [
  | inl fits ↦ rw fits (rw h refl)
  | inr over ↦ rw over (declined_first c.alg (f (codes "alg")) _ λ a. refl)
]
set_count-overlay (ok (negsuc n)) f c h = declined_first c.alg (f (codes "alg")) _ λ a. refl
set_count-overlay declined f c h = declined_first c.alg (f (codes "alg")) _ λ a. refl
set_count-overlay error f c h = declined_first c.alg (f (codes "alg")) _ λ a. refl

-- One field more, which the others do not name.
module _ (name v : Bytes) (f : Fields) (c : Credential) where
  Agrees : Bytes → Type 0
  Agrees m = f m ≡ none → (set_field m v c >>= overlay f) ≡ overlay (with_field m v f) c

  -- A field that is one of the known ones, or another.
  either :
      (text : String)
      → Agrees (codes text)
      → (bytes_eq name (codes text) ≡ false → Agrees name)
      → Agrees name
  either text known other = elim (Bool-cases (bytes_eq name (codes text))) [
    | inl e ↦ subst Agrees (sym ((bytes_eq_iff name (codes text)).0 e)) known
    | inr e ↦ other e
  ]

  set_field-overlay : Agrees name
  unfolding Agrees set_field overlay
  set_field-overlay =
      either "user_id" (λ h. unfold bytes_eq in rw h refl)
        λ n1.
          either "public_key" (λ h. unfold bytes_eq in rw h refl)
            λ n2.
              either "alg" (λ h. unfold bytes_eq in set_alg-overlay (atoi64 v) f c h)
                λ n3.
                  either "sign_count" (λ h. unfold bytes_eq in set_count-overlay (atoi64 v) f c h)
                    λ n4.
                      either "created_at" (λ h. unfold bytes_eq in rw h refl)
                        λ n5.
                          either "last_used_at" (λ h. unfold bytes_eq in rw h refl)
                            λ n6.
                              either "aaguid" (λ h. unfold bytes_eq in rw h refl)
                                λ n7.
                                  either "transports" (λ h. unfold bytes_eq in rw h refl)
                                    λ n8 h.
                                      rw n1
                                        (rw n2 (rw n3 (rw n4 (rw n5 (rw n6 (rw n7 (rw n8 refl)))))))

overlay-cong :
    {f g : Fields} → ((m : Bytes) → f m ≡ g m) → (c : Credential) → overlay f c ≡ overlay g c
overlay-cong h c = ap (λ f. overlay f c) λ i m. h m i

set_fields-overlay :
    (pairs : List (Bytes × Bytes)) (c : Credential)
    → IsUnique pairs
    → set_fields pairs c ≡ overlay (lookup pairs) c
unfolding set_fields
set_fields-overlay [] c u = unfold overlay in refl
set_fields-overlay ((name, v) ∷ pairs) c (fresh, u) =
    bind_cong (set_field name v c) (λ d. set_fields-overlay pairs d u)
    ∙ unfold Agrees in set_field-overlay name v (lookup pairs) c fresh ∙ overlay-cong (λ m. refl) c

if_suc : (n : ℕ) (r s : Rc Credential) → (if suc n == 0 then r else s) ≡ s
if_suc n r s = ground arith

-- The fields of a hash, each named once and listed in any order, make up the record that their values by name describe: a text or an AAGUID
-- of 16 bytes as it is, a time where it is a number, an algorithm and a counter that must be numbers in their ranges, and
-- a blank for every field that is missing; a record without key or algorithm is declined.
pub parse_record_lem :
    (id : Bytes) (pairs : List (Bytes × Bytes))
    → IsUnique pairs
    → parse_record id pairs ≡ record_of id (lookup pairs)
unfolding parse_record record_of
parse_record_lem id [] u = unfold overlay in refl
parse_record_lem id ((name, v) ∷ pairs) u =
    if_suc (length pairs) _ _
    ∙ ap
        (λ r.
          r >>= λ c. if length c.public_key == 0 || int_eq c.alg (pos 0) then declined else ok c)
        (set_fields-overlay ((name, v) ∷ pairs) (blank id) u)
