-- ===== src/Credential/Abstract.antt =====
-- What src/ngx_auth_webauthn_credential.c promises: a map from ids to credentials, and for each user a set of ids.
-- Below: which fields of a hash stand for an entry of the map, and what the writes of the program make of them.
use nginx_auth_webauthn.Base.{
  ℕ, ◌^◌, ◌<◌, Bytes, bytes_eq, length, codes, ltb, ◌==◌, if◌then◌else◌, false, ◌||◌, Option, none,
  some, List, [], ◌∷◌, ◌≡◌, ◌⊎◌, inl, inr, refl, ◌∙◌, ap, Bool-cases, ==_iff, Option-cases, subst,
}
use nginx_auth_webauthn.Base.Rc.{
  Rc, ok, declined, error, ◌>>=◌, bind_ok, declined_guard, ok-injective,
}
use nginx_auth_webauthn.Base.Word.{ℤ, pos, negsuc, int_eq}
use nginx_auth_webauthn.Redis.{decimal}
use nginx_auth_webauthn.Redis.Values.{Fields, Members, with_fields}
use nginx_auth_webauthn.Credential.{
  Credential, blank, fits_int32, record_pairs, read_time, atoi64, print_int,
}
use nginx_auth_webauthn.Credential.Numeral.{Int64, atoi64-print_int}
use nginx_auth_webauthn.Credential.Record.{IsUsable}
use nginx_auth_webauthn.Credential.Stored.{Int32-Int64, atoi64-decimal, in_uint32, usable_guard}
use nginx_auth_webauthn.Credential.AnyOrder.{
  record_of, overlay, text_or, aaguid_or, alg_or, count_or, filled, int32, uint32,
}

pub record Registry : Type 0 where
  pub creds : Bytes → Option Credential
  pub index : Bytes → Members

-- HSET leaves the fields that it does not name: a credential that is written over another one takes the AAGUID and
-- the transports of that one where it has none of its own.
abbrev pub kept : Option Bytes → Option Bytes → Option Bytes
kept none old = old
kept (some v) old = some v

abbrev pub over : Credential → Option Bytes → Bytes → Credential
over c aaguid transports = record c {
  aaguid = kept c.aaguid aaguid;
  transports = if length c.transports == 0 then transports else c.transports;
}

abbrev pub merged : Option Credential → Credential → Credential
merged none c = over c none []
merged (some old) c = over c old.aaguid old.transports

abbrev pub found : Option Credential → Rc Credential
found none = declined
found (some c) = ok c

-- The fields that stand for an entry. Without one there may be others yet, but no key, AAGUID or transports.
pub record IsBlank (f : Fields) : Type 0 where
  pub no_key : f (codes "public_key") ≡ none
  pub no_aaguid : f (codes "aaguid") ≡ none
  pub no_transports : f (codes "transports") ≡ none

abbrev pub IsEntry : Bytes → Fields → Option Credential → Type 0
IsEntry id f none = IsBlank f
IsEntry id f (some c) = record_of id f ≡ ok c

checked : Credential → Rc Credential
checked c = if length c.public_key == 0 || int_eq c.alg (pos 0) then declined else ok c

int32-cases : (r : Rc ℤ) → ((a : ℤ) × (int32 r ≡ ok a)) ⊎ (int32 r ≡ declined)
int32-cases (ok v) = elim (Bool-cases (fits_int32 v)) [
  | inl fits ↦ inl (v, rw fits refl)
  | inr over ↦ inr (rw over refl)
]
int32-cases declined = inr refl
int32-cases error = inr refl

uint32-cases : (r : Rc ℤ) → ((n : ℕ) × (uint32 r ≡ ok n)) ⊎ (uint32 r ≡ declined)
uint32-cases (ok (pos n)) = elim (Bool-cases (ltb n (2 ^ 32))) [
  | inl fits ↦ inl (n, rw fits refl)
  | inr over ↦ inr (rw over refl)
]
uint32-cases (ok (negsuc n)) = inr refl
uint32-cases declined = inr refl
uint32-cases error = inr refl

alg-cases :
    (old : ℤ) (o : Option Bytes) → ((a : ℤ) × (alg_or old o ≡ ok a)) ⊎ (alg_or old o ≡ declined)
alg-cases old none = inl (old, refl)
alg-cases old (some v) = int32-cases (atoi64 v)

count-cases :
    (old : ℕ) (o : Option Bytes) → ((n : ℕ) × (count_or old o ≡ ok n)) ⊎ (count_or old o ≡ declined)
count-cases old none = inl (old, refl)
count-cases old (some v) = uint32-cases (atoi64 v)

blank_declined :
    (id : Bytes) (f : Fields) → f (codes "public_key") ≡ none → record_of id f ≡ declined
unfolding record_of overlay
blank_declined id f h = elim (alg-cases (pos 0) (f (codes "alg"))) [
  | inr e ↦ rw e refl
  | inl (a, e) ↦ elim (count-cases 0 (f (codes "sign_count"))) [
    | inr e2 ↦ rw e (rw e2 refl)
    | inl (n, e2) ↦ rw e (rw e2 (rw h refl))
  ]
]

-- What is read of the fields is the entry.
pub IsEntry-found :
    (id : Bytes) (f : Fields) (o : Option Credential) → IsEntry id f o → record_of id f ≡ found o
IsEntry-found id f none b = blank_declined id f b.no_key
IsEntry-found id f (some c) e = e

-- The AAGUID and the transports of an entry are those of its fields.
entry_rest :
    (id : Bytes) (f : Fields) (o : Option Credential) (c : Credential)
    → IsEntry id f o
    → over c (aaguid_or none (f (codes "aaguid"))) (text_or [] (f (codes "transports")))
      ≡ merged o c
entry_rest id f none c b = rw b.no_aaguid (rw b.no_transports refl)
entry_rest id f (some d) c e =
    unfold record_of overlay in
    let (r, e1, e2) = bind_ok (overlay f (blank id)) _ e in
    let (a, _, e3) = bind_ok (alg_or (pos 0) (f (codes "alg"))) _ e1 in
    let (n, _, e4) = bind_ok (count_or 0 (f (codes "sign_count"))) _ e3 in
    let (_, e5) = declined_guard (length r.public_key == 0 || int_eq r.alg (pos 0)) _ e2 in
    ap (λ r. over c r.aaguid r.transports) (ok-injective e4 ∙ ok-injective e5)

-- A credential that is written, whatever its AAGUID and its transports are.
read_back :
    (c : Credential) (aaguid : Option Bytes) (transports : Bytes)
    → IsUsable c
    → ((int32 (atoi64 (print_int c.alg)) >>= λ alg.
          uint32 (atoi64 (decimal c.sign_count)) >>= λ count. ok (record {
            credential_id = c.credential_id;
            user_id = c.user_id;
            public_key = c.public_key;
            alg = alg;
            sign_count = count;
            created_at = read_time (atoi64 (print_int c.created_at)) (pos 0);
            last_used_at = read_time (atoi64 (print_int c.last_used_at)) (pos 0);
            aaguid = aaguid;
            transports = transports;
          }))
        >>= λ d. if length d.public_key == 0 || int_eq d.alg (pos 0) then declined else ok d)
      ≡ ok (record c { aaguid = aaguid; transports = transports })
unfolding read_time
read_back c aaguid transports u =
    rw (atoi64-print_int c.alg (Int32-Int64 c.alg u.typed.alg_range)) (
      rw (atoi64-decimal c.sign_count u.typed.count_range) (
        rw (atoi64-print_int c.created_at u.typed.created_range) (
          rw (atoi64-print_int c.last_used_at u.typed.used_range) (
            rw u.typed.alg_range
              (rw (in_uint32 c.sign_count u.typed.count_range) (rw (usable_guard c u) refl))))))

put_fields :
    (c : Credential) (f : Fields)
    → IsUsable c
    → record_of c.credential_id (with_fields (record_pairs c) f)
      ≡ ok (over c (aaguid_or none (f (codes "aaguid"))) (text_or [] (f (codes "transports"))))
unfolding record_of overlay record_pairs bytes_eq
put_fields c f u = elim (Bool-cases (length c.transports == 0)) [
  | inl empty ↦ elim (Option-cases c.aaguid) [
    | inl a ↦ rw empty (rw a (read_back c _ _ u))
    | inr (bytes, a) ↦ rw empty (
        rw a (
          rw ((==_iff (length bytes) 16).1 (u.typed.aaguid_length bytes a))
            (read_back c (some bytes) _ u)))
  ]
  | inr filled ↦ elim (Option-cases c.aaguid) [
    | inl a ↦ rw filled (rw a (read_back c _ c.transports u))
    | inr (bytes, a) ↦ rw filled (
        rw a (
          rw ((==_iff (length bytes) 16).1 (u.typed.aaguid_length bytes a))
            (read_back c (some bytes) c.transports u)))
  ]
]

pub put-IsEntry :
    (c : Credential) (f : Fields) (o : Option Credential)
    → IsUsable c
    → IsEntry c.credential_id f o
    → IsEntry c.credential_id (with_fields (record_pairs c) f) (some (merged o c))
put-IsEntry c f o u e = put_fields c f u ∙ ap ok (entry_rest c.credential_id f o c e)

-- A counter that is written.
abbrev pub counter_pairs : ℕ → ℤ → List (Bytes × Bytes)
counter_pairs count time =
    (codes "sign_count", decimal count) ∷ (codes "last_used_at", print_int time) ∷ []

abbrev pub counted : ℕ → ℤ → Option Credential → Option Credential
counted count time none = none
counted count time (some c) = some (record c { sign_count = count; last_used_at = time })

recount :
    (id : Bytes) (f : Fields) (a : ℤ) (m count : ℕ) (time : ℤ)
    → count < 2 ^ 32
    → Int64 time
    → alg_or (pos 0) (f (codes "alg")) ≡ ok a
    → (length (text_or [] (f (codes "public_key"))) == 0 || int_eq a (pos 0)) ≡ false
    → record_of id (with_fields (counter_pairs count time) f)
      ≡ ok (record (filled f (blank id) a m) { sign_count = count; last_used_at = time })
unfolding record_of overlay bytes_eq read_time
recount id f a m count time n t ea g = rw ea (
    rw (atoi64-decimal count n) (rw (in_uint32 count n) (rw (atoi64-print_int time t) (rw g refl))))

pub counted-IsEntry :
    (id : Bytes) (f : Fields) (o : Option Credential) (count : ℕ) (time : ℤ)
    → count < 2 ^ 32
    → Int64 time
    → IsEntry id f o
    → IsEntry id (with_fields (counter_pairs count time) f) (counted count time o)
unfolding bytes_eq
counted-IsEntry id f none count time n t b = record {
  no_key = b.no_key;
  no_aaguid = b.no_aaguid;
  no_transports = b.no_transports;
}
counted-IsEntry id f (some c) count time n t e =
    unfold record_of overlay read_time in
    let (r, e1, e2) = bind_ok (overlay f (blank id)) _ e in
    let (a, ea, e3) = bind_ok (alg_or (pos 0) (f (codes "alg"))) _ e1 in
    let (m, _, e4) = bind_ok (count_or 0 (f (codes "sign_count"))) _ e3 in
    let (g, e5) = declined_guard (length r.public_key == 0 || int_eq r.alg (pos 0)) _ e2 in
    subst
      (λ d.
        record_of id (with_fields (counter_pairs count time) f)
        ≡ ok (record d { sign_count = count; last_used_at = time }))
      (ok-injective e4 ∙ ok-injective e5)
      (recount id f a m count time n t ea
        (ap (λ d. length d.public_key == 0 || int_eq d.alg (pos 0)) (ok-injective e4) ∙ g))
