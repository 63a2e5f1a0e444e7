-- ===== src/Credential/Stored.antt =====
-- A credential that is written is read back.
use nginx_auth_webauthn.Base.{
  ℕ, suc, ◌^◌, ◌<◌, Bytes, bytes_eq, length, codes, ltb, ◌==◌, if◌then◌else◌, true, false, ◌||◌,
  none, some, [], ◌∷◌, ◌++◌, ◌≡◌, inl, inr, refl, ==_iff, sym, ap, arith, Bool-cases, Option-cases,
}
use nginx_auth_webauthn.Base.Rc.{Rc, ok, declined}
use nginx_auth_webauthn.Base.Word.{ℤ, pos, negsuc, int_eq, int_eq_iff}
use nginx_auth_webauthn.Redis.{decimal}
use nginx_auth_webauthn.Credential.Numeral.{Int64, atoi64-print_int}
use nginx_auth_webauthn.Credential.{
  Credential, fits_int32, set_alg, set_sign_count, read_time, set_field, set_fields, parse_record,
  record_pairs, aaguid_pairs, atoi64, print_int,
}
use nginx_auth_webauthn.Credential.Record.{IsUsable}

pub Int32-Int64 : (v : ℤ) → fits_int32 v ≡ true → Int64 v
Int32-Int64 (pos n) h = ground arith
Int32-Int64 (negsuc n) h = ground arith

pub atoi64-decimal : (n : ℕ) → n < 2 ^ 32 → atoi64 (decimal n) ≡ ok (pos n)
unfolding print_int
atoi64-decimal n h = atoi64-print_int (pos n) (omega arith)

pub in_uint32 : (n : ℕ) → n < 2 ^ 32 → ltb n (2 ^ 32) ≡ true
in_uint32 n h = ground arith

if_suc : (n : ℕ) (r s : Rc Credential) → (if suc n == 0 then r else s) ≡ s
if_suc n r s = ground arith

pub empty_nil : (xs : Bytes) → (length xs == 0) ≡ true → xs ≡ []
empty_nil [] h = refl
empty_nil (x ∷ xs) h = absurd (omega (arith, (==_iff (length (x ∷ xs)) 0).0 h))

pub usable_guard :
    (c : Credential) → IsUsable c → (length c.public_key == 0 || int_eq c.alg (pos 0)) ≡ false
usable_guard c u = ground (arith, u.has_key, u.has_alg, int_eq_iff c.alg (pos 0))

-- The two fields that are left out when they are empty.
set_optional :
    (c : Credential)
    → ((bytes : Bytes) → c.aaguid ≡ some bytes → length bytes ≡ 16)
    → set_fields
        ((if length c.transports == 0 then [] else (codes "transports", c.transports) ∷ [])
          ++ aaguid_pairs c.aaguid)
        (record c { transports = []; aaguid = none })
      ≡ ok c
unfolding set_fields set_field bytes_eq
set_optional c h = elim (Bool-cases (length c.transports == 0)) [
  | inl empty ↦ elim (Option-cases c.aaguid) [
    | inl a ↦ rw empty (
        rw a (
          ap (λ t. ok (record c { aaguid = none; transports = t }))
            (sym (empty_nil c.transports empty))))
    | inr (bytes, a) ↦ rw empty (
        rw a (
          rw ((==_iff (length bytes) 16).1 (h bytes a)) (
            ap (λ t. ok (record c { aaguid = some bytes; transports = t }))
              (sym (empty_nil c.transports empty)))))
  ]
  | inr filled ↦ elim (Option-cases c.aaguid) [
    | inl a ↦ rw filled (rw a refl)
    | inr (bytes, a) ↦ rw filled (rw a (rw ((==_iff (length bytes) 16).1 (h bytes a)) refl))
  ]
]

-- The fields that are written of a usable record, in the order of writing, are read back as that record.
pub parse_record-record_pairs :
    (c : Credential) → IsUsable c → parse_record c.credential_id (record_pairs c) ≡ ok c
unfolding parse_record set_fields set_field record_pairs bytes_eq set_alg set_sign_count read_time
parse_record-record_pairs c u = rw (atoi64-print_int c.alg (Int32-Int64 c.alg u.typed.alg_range)) (
    rw (atoi64-decimal c.sign_count u.typed.count_range) (
      rw (atoi64-print_int c.created_at u.typed.created_range) (
        rw (atoi64-print_int c.last_used_at u.typed.used_range) (
          rw u.typed.alg_range (
            rw (in_uint32 c.sign_count u.typed.count_range) (
              rw (set_optional c u.typed.aaguid_length)
                (rw (usable_guard c u) (if_suc _ declined (ok c)))))))))
