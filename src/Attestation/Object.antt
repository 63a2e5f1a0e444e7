-- ===== src/Attestation/Object.antt =====
-- Reading an attestation object: one map that fills the input, and of the entries under one key the last one counts.
use nginx_auth_webauthn.Base.{
  ℕ, Bytes, length, bytes_eq_iff, codes, ◌==◌, if◌then◌else◌, Bool, true, false, ◌&&◌, Option, none,
  some, List, [], ◌∷◌, ◌≡◌, ◌≢◌, ◌↔◌, inl, inr, refl, sym, ap, ◌∙◌, arith, Bool-cases,
}
use nginx_auth_webauthn.Base.Rc.{ok, some_or_ok, bind_ok, require_passed, declined-ne-ok}
use nginx_auth_webauthn.Base.Word.{pos}
use nginx_auth_webauthn.Platform.{Nginx, Cbor, Loaded}
use nginx_auth_webauthn.Attestation.{
  Attestation, Entries, no_entries, str_eq, copy, parse_stmt, entry, entries, is_text, is_bytes,
  attestation_parse,
}

abbrev or_else : {A : Type 0} → Option A → Option A → Option A
or_else (some a) d = some a
or_else none d = d

or_else-none : {A : Type 0} (o : Option A) → or_else o none ≡ o
or_else-none none = refl
or_else-none (some a) = refl

module _ {Item : Type 0} (cbor : Cbor Item) (ng : Nginx) where
  -- The value of the last entry under a key.
  pub last_entry : Bytes → List (Item × Item) → Option Item
  last_entry key [] = none
  last_entry key ((k, v) ∷ pairs) = elim (last_entry key pairs) [
    | some later ↦ some later
    | none ↦ if str_eq cbor ng k key then some v else none
  ]

  str_eq-text : (k : Item) (a : Bytes) → str_eq cbor ng k a ≡ true → cbor.string k ≡ a
  unfolding str_eq
  str_eq-text k a h = ground (arith, bytes_eq_iff (cbor.string k) a)

  -- No item is equal to two texts.
  one_text :
      (k : Item) (a b : Bytes) → a ≢ b → str_eq cbor ng k a ≡ true → str_eq cbor ng k b ≡ false
  one_text k a b differ h = elim (Bool-cases (str_eq cbor ng k b)) [
    | inl same ↦ absurd (differ (sym (str_eq-text k a h) ∙ str_eq-text k b same))
    | inr other ↦ other
  ]

  abbrev one : Bool → Item → Option Item → Option Item
  one b v old = if b then some v else old

  abbrev key_fmt : Bytes
  key_fmt = codes "fmt"

  abbrev key_auth_data : Bytes
  key_auth_data = codes "authData"

  abbrev key_att_stmt : Bytes
  key_att_stmt = codes "attStmt"

  entry_lem :
      (k v : Item) (e : Entries Item)
      → entry cbor ng (k, v) e ≡ record {
        v_fmt = one (str_eq cbor ng k key_fmt) v e.v_fmt;
        v_auth_data = one (str_eq cbor ng k key_auth_data) v e.v_auth_data;
        v_att_stmt = one (str_eq cbor ng k key_att_stmt) v e.v_att_stmt;
      }
  unfolding entry
  entry_lem k v e = ground (
    arith,
    one_text k key_fmt key_auth_data (λ h. cc h),
    one_text k key_fmt key_att_stmt (λ h. cc h),
    one_text k key_auth_data key_att_stmt (λ h. cc h),
  )

  last_entry-over :
      (key : Bytes) (k v : Item) (pairs : List (Item × Item)) (old : Option Item)
      → or_else (last_entry key pairs) (one (str_eq cbor ng k key) v old)
        ≡ or_else (last_entry key ((k, v) ∷ pairs)) old
  unfolding last_entry
  last_entry-over key k v pairs old = ground arith

  entries-over :
      (pairs : List (Item × Item)) (e : Entries Item)
      → entries cbor ng pairs e ≡ record {
        v_fmt = or_else (last_entry key_fmt pairs) e.v_fmt;
        v_auth_data = or_else (last_entry key_auth_data pairs) e.v_auth_data;
        v_att_stmt = or_else (last_entry key_att_stmt pairs) e.v_att_stmt;
      }
  unfolding entries
  entries-over [] e = unfold last_entry in refl
  entries-over ((k, v) ∷ pairs) e =
      entries-over pairs (entry cbor ng (k, v) e)
      ∙ rw (entry_lem k v e) (
          cc (
            last_entry-over key_fmt k v pairs e.v_fmt,
            last_entry-over key_auth_data k v pairs e.v_auth_data,
            last_entry-over key_att_stmt k v pairs e.v_att_stmt,
          ))

  abbrev last_entries : List (Item × Item) → Entries Item
  last_entries pairs = record {
    v_fmt = last_entry key_fmt pairs;
    v_auth_data = last_entry key_auth_data pairs;
    v_att_stmt = last_entry key_att_stmt pairs;
  }

  entries_lem : (pairs : List (Item × Item)) → entries cbor ng pairs no_entries ≡ last_entries pairs
  entries_lem pairs =
      entries-over pairs no_entries
      ∙ cc (
        or_else-none (last_entry key_fmt pairs),
        or_else-none (last_entry key_auth_data pairs),
        or_else-none (last_entry key_att_stmt pairs),
      )

  -- An object: one map that fills the input, with a text `fmt`, a byte string `authData`, and a statement that parses.
  pub record IsObject (input : Bytes) (att : Attestation) : Type 0 where
    pub loaded : Loaded Item
    pub loads : cbor.load input ≡ some loaded
    pub whole : loaded.no_error ≡ true
    pub filled : loaded.read ≡ length input
    pub map : cbor.isa_map loaded.root ≡ true
    pub v_fmt : Item
    pub fmt_last : last_entry key_fmt (cbor.map_pairs loaded.root) ≡ some v_fmt
    pub fmt_text : is_text cbor ng v_fmt ≡ true
    pub v_auth_data : Item
    pub auth_data_last : last_entry key_auth_data (cbor.map_pairs loaded.root) ≡ some v_auth_data
    pub auth_data_bytes : is_bytes cbor ng v_auth_data ≡ true
    pub statement :
        parse_stmt cbor ng (last_entry key_att_stmt (cbor.map_pairs loaded.root)) (record {
          fmt = cbor.string v_fmt;
          auth_data = cbor.bytestring v_auth_data;
          att_sig = [];
          att_alg = pos 0;
          has_x5c = false;
        })
        ≡ ok att

  copy_ok : (src dst : Bytes) → copy cbor ng src ≡ ok dst → src ≡ dst
  unfolding copy
  copy_ok src dst h = ground arith

  ok_copy : (src : Bytes) → ((n : ℕ) → ng.pnalloc n ≡ true) → copy cbor ng src ≡ ok src
  unfolding copy
  ok_copy src room = ground (arith, room (length src))

  abbrev base : Bytes → Bytes → Attestation
  base fmt auth_data = record {
    fmt = fmt;
    auth_data = auth_data;
    att_sig = [];
    att_alg = pos 0;
    has_x5c = false;
  }

  stmt_same :
      {x y : Option Item} {a b c d : Bytes}
      → x ≡ y
      → a ≡ c
      → b ≡ d
      → parse_stmt cbor ng y (base a b) ≡ parse_stmt cbor ng x (base c d)
  stmt_same e f g = cc (e, f, g)

  -- Where the pool can allocate, the reader returns an attestation exactly for the objects: with no byte after the map, the
  -- last entry of each key counting, and the statement read from `attStmt` where that is there.
  pub attestation_parse_iff :
      (input : Bytes) (att : Attestation)
      → ((n : ℕ) → ng.pnalloc n ≡ true)
      → (attestation_parse cbor ng input ≡ ok att) ↔ IsObject input att
  unfolding attestation_parse
  attestation_parse_iff input att room = (
    λ h.
        let (loaded, loads, h1) = some_or_ok (cbor.load input) _ _ declined-ne-ok h in
        let (good, h2) =
          require_passed
            (loaded.no_error && loaded.read == length input && cbor.isa_map loaded.root) _ _
            (declined-ne-ok tt) h1 in
        let es : Entries Item = entries cbor ng (cbor.map_pairs loaded.root) no_entries in
        let same : es ≡ last_entries (cbor.map_pairs loaded.root) =
          entries_lem (cbor.map_pairs loaded.root) in
        let (v_fmt, has_fmt, h3) = some_or_ok es.v_fmt _ _ declined-ne-ok h2 in
        let (text, h4) = require_passed (is_text cbor ng v_fmt) _ _ (declined-ne-ok tt) h3 in
        let (v_auth, has_auth, h5) = some_or_ok es.v_auth_data _ _ declined-ne-ok h4 in
        let (bytes, h6) = require_passed (is_bytes cbor ng v_auth) _ _ (declined-ne-ok tt) h5 in
        let (fmt, is_fmt, h7) = bind_ok (copy cbor ng (cbor.string v_fmt)) _ h6 in
        let (auth, is_auth, h8) = bind_ok (copy cbor ng (cbor.bytestring v_auth)) _ h7 in
        record {
          loaded = loaded;
          loads = loads;
          whole = ground (arith, good);
          filled = ground (arith, good);
          map = ground (arith, good);
          v_fmt = v_fmt;
          fmt_last = sym (ap (λ (e : Entries Item). e.v_fmt) same) ∙ has_fmt;
          fmt_text = text;
          v_auth_data = v_auth;
          auth_data_last = sym (ap (λ (e : Entries Item). e.v_auth_data) same) ∙ has_auth;
          auth_data_bytes = bytes;
          statement =
              stmt_same (ap (λ (e : Entries Item). e.v_att_stmt) same)
                (copy_ok (cbor.string v_fmt) fmt is_fmt)
                (copy_ok (cbor.bytestring v_auth) auth is_auth)
              ∙ h8;
        },
    λ (h : IsObject input att). ground (
      arith,
      h.loads,
      h.whole,
      h.filled,
      h.map,
      entries_lem (cbor.map_pairs h.loaded.root),
      h.fmt_last,
      h.fmt_text,
      h.auth_data_last,
      h.auth_data_bytes,
      ok_copy (cbor.string h.v_fmt) room,
      ok_copy (cbor.bytestring h.v_auth_data) room,
      h.statement,
    ),
  )
