-- ===== src/Tests/Compat.antt =====
-- base64url, and the pool of the admin tool.
use nginx_auth_webauthn.Compat.Log.{log_error, is_whole, log_error_fits}
use nginx_auth_webauthn.Base.{
  ℕ, ◌+◌, ◌*◌, ◌/◌, ◌≤◌, length, codes, if◌then◌else◌, none, some, true, List, [], ◌∷◌, ◌≡◌, ◌==◌,
  arith, refl, replicate, ◌<◌, ◌++◌,
}
use nginx_auth_webauthn.Compat.Base64.{encode_base64url, decode_base64url}
use nginx_auth_webauthn.Compat.Base64.Fits.{base64url_fits}
use nginx_auth_webauthn.Compat.Base64.RoundTrip.{decode_base64url-encode_base64url}
use nginx_auth_webauthn.Compat.Pool.{new_pool, destroy_pool}
use nginx_auth_webauthn.Compat.Pool.Blocks.{
  Call, alloc, free, add, times, got, freed_by, run, held_memory, destroy_pool-frees,
}

decode_base64url-encode_base64url_example :
    decode_base64url (encode_base64url (251 ∷ 255 ∷ 0 ∷ 128 ∷ [])) ≡ some (251 ∷ 255 ∷ 0 ∷ 128 ∷ [])
decode_base64url-encode_base64url_example =
    decode_base64url-encode_base64url (251 ∷ 255 ∷ 0 ∷ 128 ∷ [])
      (omega arith, (omega arith, (omega arith, (omega arith, tt))))

base64url_fits_example :
    (length (encode_base64url (codes "AQ==")) ≤ (4 + 2) / 3 * 4)
    × (decode_base64url (codes "AQ==") ≡ some (1 ∷ []) → length {A = ℕ} (1 ∷ []) ≤ (4 + 3) / 4 * 3)
base64url_fits_example = base64url_fits (codes "AQ==") (1 ∷ [])

abbrev test_calls : List Call
test_calls =
    alloc (some 2) (some 3) ∷ add true (some 4) (some 5) ∷ alloc (some 6) none ∷ free 2 ∷ []

destroy_pool-frees_example :
    (if 5 == 1 then 1 else 0) + got 5 test_calls
    ≡ freed_by 5 test_calls (new_pool 1)
      + times 5 (destroy_pool (run test_calls (new_pool 1)))
      + held_memory 5 (run test_calls (new_pool 1)).cleanup
destroy_pool-frees_example = destroy_pool-frees 5 1 test_calls

log_error_lem_test :
    log_error (some 4) 4 (codes "got %uz of %ui, %i: %s") ≡ some (codes "got %zu of %zu, %zd: %s")
unfolding log_error
log_error_lem_test = refl

-- A conversion of more than two bytes may be cut.
cut_conversion :
    log_error (some 4) 4 (replicate 507 b'a' ++ codes "%.*s")
    ≡ some (replicate 507 b'a' ++ codes "%.")
unfolding log_error
cut_conversion = refl

log_error_fits_example : (length (codes "got %zu") < 512) × (is_whole (codes "got %zu") ≡ true)
unfolding log_error
log_error_fits_example = log_error_fits (some 4) 4 (codes "got %uz") (codes "got %zu") refl
