-- ===== src/Clientdata/Valid.antt =====
-- What an accepted clientDataJSON says, apart from the order of the checks.
use nginx_auth_webauthn.Base.{
  ℕ, Bytes, length, bytes_eq, bytes_eq_iff, codes, ◌==◌, true, not, ◌&&◌, some, List, [], ◌∷◌, ◌≡◌,
  ◌↔◌, ◌⊎◌, arith, ap, ◌∙◌,
}
use nginx_auth_webauthn.Base.Rc.{
  ok, declined, require, some_or, some_or_ok, bind_ok, require_passed, declined-ne-ok, error-ne-ok,
  some_or-declined,
}
use nginx_auth_webauthn.Platform.{Nginx, JsonLib}
use nginx_auth_webauthn.Clientdata.{allowed, get_string, is_cross_origin, verify}

abbrev pub OneOf : Bytes → List Bytes → Type 0
OneOf x [] = ⊥
OneOf x (y ∷ ys) = (x ≡ y) ⊎ OneOf x ys

pub allowed_iff : (x : Bytes) (ys : List Bytes) → (allowed x ys ≡ true) ↔ OneOf x ys
unfolding allowed
allowed_iff x [] = (λ h. cc, λ h. absurd h)
allowed_iff x (y ∷ ys) = ground (arith, bytes_eq_iff x y, allowed_iff x ys)

module _ {Json : Type 0} (js : JsonLib Json) where
  -- The object has the member, and it is this text.
  abbrev pub HasString : Json → Bytes → Bytes → Type 0
  HasString root key value =
      (node : Json) × (js.object_get root key ≡ some node) × (js.string node ≡ some value)

  abbrev pub IsCrossOrigin : Json → Type 0
  IsCrossOrigin root =
      (node : Json) × (js.object_get root (codes "crossOrigin") ≡ some node)
      × (js.boolean node ≡ some true)

  -- The client data of a ceremony: its type, its challenge once decoded, and an origin of the list.
  pub record IsAccepted (ng : Nginx) (input expected_type expected_challenge : Bytes)
      (origins : List Bytes) : Type 0 where
    pub root : Json
    pub parsed : js.parse_untrusted input ≡ some root
    pub type : HasString root (codes "type") expected_type
    pub challenge_b64 : Bytes
    pub challenge : HasString root (codes "challenge") challenge_b64
    pub decoded : ng.decode_base64url challenge_b64 ≡ some expected_challenge
    pub origin : Bytes
    pub has_origin : HasString root (codes "origin") origin
    pub listed : OneOf origin origins
    pub same_origin : ¬ IsCrossOrigin root

  get_string_iff :
      (root : Json) (key v : Bytes) → (get_string js root key ≡ ok v) ↔ HasString root key v
  unfolding get_string
  get_string_iff root key v = (
    λ h.
        let (node, found, h') =
          some_or_ok (js.object_get root key) declined (λ n. some_or (js.string n) declined)
            declined-ne-ok h in
        (node, found, (some_or-declined (js.string node) v).0 h'),
    λ h. let (node, found, is) = h in rw (found, is),
  )

  -- The two ways for the member to be harmless, and the one that is refused.
  is_cross_origin_iff : (root : Json) → (is_cross_origin js root ≡ true) ↔ IsCrossOrigin root
  unfolding is_cross_origin
  is_cross_origin_iff root = ground arith

  refused :
      (root : Json)
      → is_cross_origin js root ≡ true
      → require (not (is_cross_origin js root)) declined ≡ ok tt
      → ⊥
  refused root x h = ground arith

  -- Where the pool can allocate, the checks accept exactly a JSON document with the expected type, the expected challenge once
  -- decoded, an origin of the list, and no crossOrigin that is true.
  pub verify_iff :
      (ng : Nginx) (input type challenge : Bytes) (origins : List Bytes)
      → ((n : ℕ) → ng.pnalloc n ≡ true)
      → (verify js ng input type challenge origins ≡ ok tt)
        ↔ IsAccepted ng input type challenge origins
  unfolding verify
  verify_iff ng input type challenge origins room = (
    λ h.
        let (root, parsed, h1) = some_or_ok (js.parse_untrusted input) _ _ declined-ne-ok h in
        let (t, is_t, h2) = bind_ok (get_string js root (codes "type")) _ h1 in
        let (same_t, h3) = require_passed (bytes_eq t type) _ _ (declined-ne-ok tt) h2 in
        let (c, is_c, h4) = bind_ok (get_string js root (codes "challenge")) _ h3 in
        let (_, h5) =
          require_passed (ng.pnalloc (ng.base64_decoded_length (length c))) _ _ (error-ne-ok tt)
            h4 in
        let (raw, decoded, h6) = some_or_ok (ng.decode_base64url c) _ _ declined-ne-ok h5 in
        let (same_c, h7) =
          require_passed (length raw == length challenge && bytes_eq raw challenge) _ _
            (declined-ne-ok tt) h6 in
        let (o, is_o, h8) = bind_ok (get_string js root (codes "origin")) _ h7 in
        let (listed, h9) = require_passed (allowed o origins) _ _ (declined-ne-ok tt) h8 in
        record {
          root = root;
          parsed = parsed;
          type =
              (get_string_iff root (codes "type") type).0
                (is_t ∙ ap ok ((bytes_eq_iff t type).0 same_t));
          challenge_b64 = c;
          challenge = (get_string_iff root (codes "challenge") c).0 is_c;
          decoded = decoded ∙ ap some (ground (arith, bytes_eq_iff raw challenge));
          origin = o;
          has_origin = (get_string_iff root (codes "origin") o).0 is_o;
          listed = (allowed_iff o origins).0 listed;
          same_origin = λ x. refused root ((is_cross_origin_iff root).1 x) h9;
        },
    λ (h : IsAccepted ng input type challenge origins). ground (
      arith,
      (get_string_iff h.root (codes "type") type).1 h.type,
      (get_string_iff h.root (codes "challenge") h.challenge_b64).1 h.challenge,
      (get_string_iff h.root (codes "origin") h.origin).1 h.has_origin,
      (allowed_iff h.origin origins).1 h.listed,
      is_cross_origin_iff h.root,
      bytes_eq_iff type type,
      bytes_eq_iff challenge challenge,
      room (ng.base64_decoded_length (length h.challenge_b64)),
    ),
  )
