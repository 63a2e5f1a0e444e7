-- ===== src/Admin/Source/Whole.antt =====
-- The loop of `read_file` ends, and gives the whole of a text that is shorter than the limit.
use nginx_auth_webauthn.Base.{
  ℕ, zero, suc, ◌-◌, ◌*◌, ◌≤◌, ◌<◌, Bytes, length, take, drop, leb, ltb, ◌==◌, if◌then◌else◌, Bool,
  true, false, Option, some, [], ◌∷◌, ◌++◌, ◌≡◌, ◌≢◌, inl, inr, refl, sym, ◌∙◌, ap, ap₂, subst,
  subst₂, arith, Bool-cases, ==_iff, ltb-false, length-take, length-append, take-append-drop,
}
use mathlib.Core.Option
use nginx_auth_webauthn.Base.Rc.{Rc, ok, error, ◌>>=◌}
use nginx_auth_webauthn.Platform.{Nginx}
use nginx_auth_webauthn.Admin.Source.{
  Source, Buffer, file_max, read_chunk, grown, read_into, on_grown, read_rounds, terminated,
  read_source,
}

abbrev doubled : ℕ → ℕ → ℕ
doubled zero size = size
doubled (suc j) size = doubled j (size * 2)

le-doubled : (j size : ℕ) → size ≤ doubled j size
le-doubled zero size = omega arith
le-doubled (suc j) size = omega (arith, le-doubled j (size * 2))

ltb-true : (a b : ℕ) → ltb a b ≡ true → a < b
ltb-true a b h = ground arith

take_nil : (n : ℕ) → length {A = ℕ} (take n []) ≡ 0
take_nil n = omega (arith, length-take {A = ℕ} n [])

take_all : (xs : Bytes) → take (length xs) xs ≡ xs
take_all [] = refl
take_all (x ∷ xs) = ap (λ ys. x ∷ ys) (take_all xs)

drop_all : (xs : Bytes) → drop (length xs) xs ≡ []
drop_all [] = refl
drop_all (x ∷ xs) = drop_all xs

append_assoc : (xs ys zs : Bytes) → (xs ++ ys) ++ zs ≡ xs ++ (ys ++ zs)
append_assoc [] ys zs = refl
append_assoc (x ∷ xs) ys zs = ap (λ l. x ∷ l) (append_assoc xs ys zs)

append_nil : (xs : Bytes) → xs ++ [] ≡ xs
append_nil [] = refl
append_nil (x ∷ xs) = ap (λ ys. x ∷ ys) (append_nil xs)

module _ (ng : Nginx) (memory : (n : ℕ) → ng.pnalloc n ≡ true) (fails : Bool) where
  -- What the loop gives: the text, or an error for one that is too long.
  abbrev Gives : Option (Rc Buffer) → Bytes → Type 0
  Gives r text =
      (length text < file_max
        → (size : ℕ) × (length text < size)
          × (r ≡ some (if fails then error else ok (record { cap = size; text = text }))))
      × (file_max ≤ length text → r ≡ some error)

  read_some :
      (size : ℕ) (text : Bytes) (r : ℕ) (rest : Bytes)
      → length text < size
      → length (take (size - length text) (r ∷ rest)) ≢ 0
  read_some size text r rest room h =
      omega (arith, h, length-take (size - length text) (r ∷ rest), room)

  space :
      (size : ℕ) (text rest : Bytes)
      → ltb (length rest) (size - length text) ≡ true
      → length (text ++ rest) < size
  space size text rest short = ground (arith, short, length-append text rest)

  filled_up :
      (size : ℕ) (text rest : Bytes)
      → length text < size
      → ltb (length rest) (size - length text) ≡ false
      → length (text ++ take (size - length text) rest) ≡ size
  filled_up size text rest room long = ground (
    arith,
    long,
    room,
    length-append text (take (size - length text) rest),
    length-take (size - length text) rest,
  )

  with_room :
      (k : ℕ) (b : Buffer) (s : Source)
      → length b.text < b.cap
      → read_rounds ng (suc k) b s ≡ read_into ng (read_rounds ng k) b s
  unfolding read_rounds grown on_grown
  with_room k b s room = elim (Bool-cases (length b.text == b.cap)) [
    | inl e ↦ absurd (omega (arith, (==_iff (length b.text) b.cap).0 e, room))
    | inr e ↦ rw e refl
  ]

  doubles :
      (k : ℕ) (b : Buffer) (s : Source)
      → length b.text ≡ b.cap
      → b.cap < file_max
      → read_rounds ng (suc k) b s
        ≡ read_into ng (read_rounds ng k) (record b { cap = b.cap * 2 }) s
  unfolding read_rounds grown on_grown
  doubles k b s full small = elim (Bool-cases (leb file_max b.cap)) [
    | inl e ↦ absurd (ground (arith, e, small))
    | inr e ↦ rw ((==_iff (length b.text) b.cap).1 full) (rw e (rw (memory (b.cap * 2)) refl))
  ]

  too_long :
      (k : ℕ) (b : Buffer) (s : Source)
      → length b.text ≡ b.cap
      → b.cap ≡ file_max
      → read_rounds ng (suc k) b s ≡ some error
  unfolding read_rounds grown on_grown
  too_long k b s full last = rw ((==_iff (length b.text) b.cap).1 full) (rw last refl)

  reads :
      (again : Buffer → Source → Option (Rc Buffer)) (b : Buffer) (rest : Bytes)
      → length (take (b.cap - length b.text) rest) ≢ 0
      → (n : ℕ) → n ≡ length (take (b.cap - length b.text) rest)
      → read_into ng again b (record { rest = rest; fails = fails })
        ≡ again
            (record b { text = b.text ++ take n rest })
            (record { rest = drop n rest; fails = fails })
  unfolding read_into
  reads again b rest some_read n e =
      elim (Bool-cases (length (take (b.cap - length b.text) rest) == 0)) [
        | inl z ↦ absurd (some_read ((==_iff _ 0).0 z))
        | inr z ↦ rw z (
            ap
              (λ k.
                again (record b { text = b.text ++ take k rest })
                  (record { rest = drop k rest; fails = fails }))
              (sym e))
      ]

  at_end :
      (again : Buffer → Source → Option (Rc Buffer)) (b : Buffer)
      → read_into ng again b (record { rest = []; fails = fails })
        ≡ some (if fails then error else ok b)
  unfolding read_into
  at_end again b = rw (take_nil (b.cap - length b.text)) refl

  -- One read into a buffer with room, where a full buffer of this capacity is dealt with.
  from_room :
      (k size : ℕ) (text rest : Bytes)
      → length text < size
      → size ≤ file_max
      → ((next after : Bytes)
          → length next ≡ size
          → Gives
              (read_rounds ng
                (suc k)
                (record { cap = size; text = next })
                (record { rest = after; fails = fails }))
              (next ++ after))
      → Gives
          (read_into ng
            (read_rounds ng (suc k))
            (record { cap = size; text = text })
            (record { rest = rest; fails = fails }))
          (text ++ rest)
  from_room k size text [] room fits full = rw (append_nil text) (
      rw (at_end (read_rounds ng (suc k)) (record { cap = size; text = text }))
        (λ short. (size, room, refl), λ long. absurd (omega (arith, room, fits, long))))
  from_room k size text (r ∷ rest) room fits full =
      elim (Bool-cases (ltb (length (r ∷ rest)) (size - length text))) [
        | inl short ↦
            subst (λ out. Gives out (text ++ (r ∷ rest)))
              (sym (
                reads (read_rounds ng (suc k)) (record { cap = size; text = text }) (r ∷ rest)
                  (read_some size text r rest room) (length (r ∷ rest))
                  (ground (arith, short, length-take (size - length text) (r ∷ rest)))
                ∙ ap₂
                    (λ l d.
                      read_rounds ng (suc k) (record { cap = size; text = text ++ l })
                        (record { rest = d; fails = fails }))
                    (take_all (r ∷ rest)) (drop_all (r ∷ rest))
                ∙ with_room k _ _ (space size text (r ∷ rest) short)
                ∙ at_end (read_rounds ng k) _))
              (
                λ below. (size, space size text (r ∷ rest) short, refl),
                λ long. absurd (omega (arith, long, fits, space size text (r ∷ rest) short)),
              )
        | inr long ↦
            subst₂ Gives
              (sym (
                reads (read_rounds ng (suc k)) (record { cap = size; text = text }) (r ∷ rest)
                  (read_some size text r rest room) (size - length text)
                  (ground (arith, long, length-take (size - length text) (r ∷ rest)))))
              (append_assoc text (take (size - length text) (r ∷ rest))
                  (drop (size - length text) (r ∷ rest))
                ∙ ap (λ l. text ++ l) (take-append-drop (size - length text) (r ∷ rest)))
              (full (text ++ take (size - length text) (r ∷ rest))
                (drop (size - length text) (r ∷ rest)) (filled_up size text (r ∷ rest) room long))
      ]

  when_full :
      (j size : ℕ) (text rest : Bytes)
      → 0 < size
      → length text ≡ size
      → doubled j size ≡ file_max
      → Gives
          (read_rounds ng
            (suc (suc j))
            (record { cap = size; text = text })
            (record { rest = rest; fails = fails }))
          (text ++ rest)
  when_full zero size text rest some_cap full last = (
    λ short. absurd (omega (arith, short, length-append text rest, full, last)),
    λ long. too_long 1 _ _ full last,
  )
  when_full (suc j) size text rest some_cap full more =
      subst (λ out. Gives out (text ++ rest))
        (sym (
          doubles (suc (suc j)) (record { cap = size; text = text }) _ full
            (omega (arith, le-doubled j (size * 2), more))))
        (from_room (suc j) (size * 2) text rest (omega (arith, some_cap, full))
          (omega (arith, le-doubled j (size * 2), more))
          λ next after e. when_full j (size * 2) next after (omega (arith, some_cap)) e more)

  -- Where memory suffices, the reading of a stream ends within 11 rounds, as often as its buffer is doubled, and gives the whole of a text that is
  -- shorter than 16 MiB; a longer text, and a stream that fails, are errors.
  pub read_source_lem :
      (text : Bytes)
      → read_source ng (record { rest = text; fails = fails })
        ≡ some (if ltb (length text) file_max then (if fails then error else ok text) else error)
  unfolding read_source
  read_source_lem text =
      let (short, long) = start text in
      elim (Bool-cases (ltb (length text) file_max)) [
        | inl e ↦
            let (size, room, r) = short (ltb-true (length text) file_max e) in
            rw (memory read_chunk) (rw e (rw r (ends size text room fails)))
        | inr e ↦
            rw (memory read_chunk) (rw e (rw (long (ltb-false (length text) file_max e)) refl))
      ]
    where
      start :
          (text : Bytes)
          → Gives
              (read_rounds ng 11
                (record { cap = read_chunk; text = [] })
                (record { rest = text; fails = fails }))
              text
      start text =
          subst (λ out. Gives out text)
            (sym (
              with_room 10 (record { cap = read_chunk; text = [] })
                (record { rest = text; fails = fails }) (omega arith)))
            (from_room 9 read_chunk [] text (omega arith) (omega arith)
              λ next after e. when_full 8 read_chunk next after (omega arith) e refl)

      ends :
          (size : ℕ) (text : Bytes)
          → length text < size
          → (f : Bool)
          → Option.map
              (λ r. r >>= terminated ng)
              (some (if f then error else ok (record { cap = size; text = text })))
            ≡ some (if f then error else ok text)
      ends size text room true = refl
      ends size text room false = elim (Bool-cases (length text == size)) [
        | inl e ↦ absurd (omega (arith, (==_iff (length text) size).0 e, room))
        | inr e ↦ unfold terminated in rw e refl
      ]
