-- ===== src/Cose/Labels.antt =====
-- The loop over a COSE map: of the entries under one label the last one counts.
use nginx_auth_webauthn.Base.{
  if◌then◌else◌, Bool, false, Option, none, some, List, [], ◌∷◌, ◌≡◌, refl, arith, ◌∙◌,
}
use nginx_auth_webauthn.Base.Rc.{ok, declined, error}
use nginx_auth_webauthn.Base.Word.{ℤ, negsuc, int_eq}
use nginx_auth_webauthn.Platform.{Cbor}
use nginx_auth_webauthn.Cose.{
  LabelValues, no_labels, assign, cose_int, collect_pair, collect, label_kty, label_alg,
}

abbrev or_else : {A : Type 0} → Option A → Option A → Option A
or_else (some a) d = some a
or_else none d = d

module _ {Item : Type 0} (cbor : Cbor Item) where
  -- The key is an integer item that reads as this label.
  pub has_label : ℤ → Item → Bool
  has_label label key = elim (cose_int cbor (some key)) [
    | ok v ↦ int_eq v label
    | declined ↦ false
    | error ↦ false
  ]

  -- The value of the last entry under a label.
  pub last_value : ℤ → List (Item × Item) → Option Item
  last_value label [] = none
  last_value label ((key, value) ∷ pairs) = elim (last_value label pairs) [
    | some later ↦ some later
    | none ↦ if has_label label key then some value else none
  ]

  abbrev pub last_values : List (Item × Item) → LabelValues Item
  last_values pairs = record {
    v_kty = last_value label_kty pairs;
    v_alg = last_value label_alg pairs;
    v_m1 = last_value (negsuc 0) pairs;
    v_m2 = last_value (negsuc 1) pairs;
    v_m3 = last_value (negsuc 2) pairs;
  }

  abbrev over : LabelValues Item → LabelValues Item → LabelValues Item
  over a b = record {
    v_kty = or_else a.v_kty b.v_kty;
    v_alg = or_else a.v_alg b.v_alg;
    v_m1 = or_else a.v_m1 b.v_m1;
    v_m2 = or_else a.v_m2 b.v_m2;
    v_m3 = or_else a.v_m3 b.v_m3;
  }

  abbrev one : Bool → Item → Option Item → Option Item
  one b v old = if b then some v else old

  collect_pair_lem :
      (key value : Item) (l : LabelValues Item)
      → collect_pair cbor (key, value) l ≡ record {
        v_kty = one (has_label label_kty key) value l.v_kty;
        v_alg = one (has_label label_alg key) value l.v_alg;
        v_m1 = one (has_label (negsuc 0) key) value l.v_m1;
        v_m2 = one (has_label (negsuc 1) key) value l.v_m2;
        v_m3 = one (has_label (negsuc 2) key) value l.v_m3;
      }
  unfolding collect_pair assign has_label
  collect_pair_lem key value l = ground arith

  last_value_over :
      (label : ℤ) (key value : Item) (pairs : List (Item × Item)) (old : Option Item)
      → or_else (last_value label pairs) (one (has_label label key) value old)
        ≡ or_else (last_value label ((key, value) ∷ pairs)) old
  unfolding last_value
  last_value_over label key value pairs old = ground arith

  collect-over :
      (pairs : List (Item × Item)) (l : LabelValues Item)
      → collect cbor pairs l ≡ over (last_values pairs) l
  unfolding collect
  collect-over [] l = unfold last_value in refl
  collect-over ((key, value) ∷ pairs) l =
      collect-over pairs (collect_pair cbor (key, value) l)
      ∙ rw (collect_pair_lem key value l) (
          cc (
            last_value_over label_kty key value pairs l.v_kty,
            last_value_over label_alg key value pairs l.v_alg,
            last_value_over (negsuc 0) key value pairs l.v_m1,
            last_value_over (negsuc 1) key value pairs l.v_m2,
            last_value_over (negsuc 2) key value pairs l.v_m3,
          ))

  or_else-none : (o : Option Item) → or_else o none ≡ o
  or_else-none none = refl
  or_else-none (some a) = refl

  -- After the loop over a map each of the five labels holds the value of its last entry, or NULL.
  pub collect_lem : (pairs : List (Item × Item)) → collect cbor pairs no_labels ≡ last_values pairs
  collect_lem pairs =
      collect-over pairs no_labels
      ∙ cc (
        or_else-none (last_value label_kty pairs),
        or_else-none (last_value label_alg pairs),
        or_else-none (last_value (negsuc 0) pairs),
        or_else-none (last_value (negsuc 1) pairs),
        or_else-none (last_value (negsuc 2) pairs),
      )
