-- ===== src/Pgtype/Range/RoundTrip.antt =====
-- pgtype/range.go and pgtype/range_codec.go: a range is read as the one that was written.
use solo_coder.Pgtype.Sizes.{sized, set_length-sized}
use solo_coder.Pgtype.Plan.{refused, ◌>>=◌}
use solo_coder.Common.{
  append_assoc, ◌∷◌, ◌∙◌, ℕ, ◌^◌, ◌<◌, ◌≡◌, refl, sym, ap, false, Option, none, some, List, [],
  ◌++◌, append-nil, arith, ltb, length, length-append, take_append, drop_append,
}
use solo_coder.Common.Int.{negsuc}
use solo_coder.Pgio.{append_int32}
use solo_coder.Pgio.Laws.{be32, from_be32-be32}
use solo_coder.Pgtype.Plan.{Answer, given}
use solo_coder.Pgtype.Range.{
  encode_typed, encode_range, untyped, no_trailing, is_unbounded, parse_upper, parse_first,
  encode_bounds, RangeValue, parse_bounds, upper_type_of, lower_type_of, parse_untyped_binary_range,
  upper_mask, lower_mask, BoundType, inclusive, exclusive, unbounded, empty, unknown, read_bound,
  set_size, append_bound,
}

read_bound-sized :
    (v rest : List ℕ) → length v < 2 ^ 31 → read_bound (sized v ++ rest) ≡ given (v, rest)
unfolding read_bound sized be32
read_bound-sized v rest h =
    let fits : ltb (length (v ++ rest)) (length v) ≡ false = ground (arith, length-append v rest) in
    rw (from_be32-be32 (length v) (omega (arith, h)), fits, take_append v rest, drop_append v rest)
      refl

read_last-sized : (v : List ℕ) → length v < 2 ^ 31 → read_bound (sized v) ≡ given (v, [])
read_last-sized v h = ap read_bound (sym (append-nil (sized v))) ∙ read_bound-sized v [] h

bind_assoc :
    {A B C : Type 0} (a : Answer A) (f : A → Answer B) (g : B → Answer C)
    → ((a >>= f) >>= g) ≡ (a >>= (λ x. f x >>= g))
bind_assoc (refused e) f g = refl
bind_assoc (given x) f g = refl

module _ {T : Type 0} (encode_element : T → List ℕ → Answer (Option (List ℕ)))
    (element : T → List ℕ) where
  -- What the encode plan of the elements does: it appends an element's bytes, which are fewer than
  -- an int32 counts.
  abbrev pub Appends : Type 0
  Appends =
      (v : T) (buf : List ℕ)
      → (encode_element v buf ≡ given (some (buf ++ element v))) × (length (element v) < 2 ^ 31)

  -- The bounds that an encoding has, by their types, and their bytes.
  abbrev pub IsBound : BoundType → Option T → Type 0
  IsBound inclusive (some v) = Unit
  IsBound exclusive (some v) = Unit
  IsBound unbounded v = Unit
  IsBound t v = ⊥

  abbrev pub kept : BoundType → Option T → Option (List ℕ)
  kept unbounded v = none
  kept t none = none
  kept t (some v) = some (element v)

  abbrev bytes_of : Option (List ℕ) → List ℕ
  bytes_of none = []
  bytes_of (some v) = sized v

  module _ (appends : Appends) where
    append_some :
        (v : T) (buf : List ℕ)
        → (encode_element v (append_int32 buf (negsuc 0)) >>= set_size encode_element (length buf))
          ≡ given (buf ++ sized (element v))
    unfolding set_size
    append_some v buf =
        ap (λ a. a >>= set_size encode_element (length buf))
          (appends v (append_int32 buf (negsuc 0))).0
        ∙ ap given (set_length-sized (element v) buf (appends v []).1)

    append_bound-kept :
        (t : BoundType) (v : Option T) (buf : List ℕ)
        → IsBound t v
        → append_bound encode_element t v buf ≡ given (buf ++ bytes_of (kept t v))
    unfolding append_bound
    append_bound-kept inclusive (some v) buf h = append_some v buf
    append_bound-kept exclusive (some v) buf h = append_some v buf
    append_bound-kept unbounded v buf h = ap given (sym (append-nil buf))
    append_bound-kept inclusive none buf h = absurd h
    append_bound-kept exclusive none buf h = absurd h
    append_bound-kept empty v buf h = absurd h
    append_bound-kept (unknown b) v buf h = absurd h

  -- The types of the bounds, behind the byte that the encoding starts with.
  parse_typed :
      (lt ut : BoundType) (l u : Option T) (rest : List ℕ)
      → IsBound lt l
      → IsBound ut u
      → (t : ℕ) × ((lower_mask lt >>= (λ m. upper_mask m ut)) ≡ given t)
        × (parse_untyped_binary_range (t ∷ rest) ≡ parse_bounds lt ut rest)
  unfolding lower_mask upper_mask parse_untyped_binary_range lower_type_of upper_type_of
  parse_typed inclusive inclusive l u rest h k = (6, refl, refl)
  parse_typed inclusive exclusive l u rest h k = (2, refl, refl)
  parse_typed inclusive unbounded l u rest h k = (18, refl, refl)
  parse_typed inclusive empty l u rest h k = absurd k
  parse_typed inclusive (unknown b) l u rest h k = absurd k
  parse_typed exclusive inclusive l u rest h k = (4, refl, refl)
  parse_typed exclusive exclusive l u rest h k = (0, refl, refl)
  parse_typed exclusive unbounded l u rest h k = (16, refl, refl)
  parse_typed exclusive empty l u rest h k = absurd k
  parse_typed exclusive (unknown b) l u rest h k = absurd k
  parse_typed unbounded inclusive l u rest h k = (12, refl, refl)
  parse_typed unbounded exclusive l u rest h k = (8, refl, refl)
  parse_typed unbounded unbounded l u rest h k = (24, refl, refl)
  parse_typed unbounded empty l u rest h k = absurd k
  parse_typed unbounded (unknown b) l u rest h k = absurd k
  parse_typed empty ut l u rest h k = absurd h
  parse_typed (unknown b) ut l u rest h k = absurd h

  abbrev pub ranged : BoundType → BoundType → Option T → Option T → RangeValue T
  ranged lt ut l u = record {
    is_null = false;
    lower_bound = l;
    upper_bound = u;
    lower_bound_type = lt;
    upper_bound_type = ut;
  }

  module _ (appends : Appends) where
    parse_upper-kept :
        (lt ut : BoundType) (val : List ℕ) (u : Option T)
        → IsBound ut u
        → parse_upper lt ut val (bytes_of (kept ut u))
          ≡ given (untyped (some val) (kept ut u) lt ut)
    unfolding parse_upper no_trailing
    parse_upper-kept lt unbounded val u h = refl
    parse_upper-kept lt inclusive val (some v) h =
        ap (λ a. a >>= (λ r. no_trailing r.1 (untyped (some val) (some r.0) lt inclusive)))
          (read_last-sized (element v) (appends v []).1)
    parse_upper-kept lt exclusive val (some v) h =
        ap (λ a. a >>= (λ r. no_trailing r.1 (untyped (some val) (some r.0) lt exclusive)))
          (read_last-sized (element v) (appends v []).1)
    parse_upper-kept lt inclusive val none h = absurd h
    parse_upper-kept lt exclusive val none h = absurd h
    parse_upper-kept lt empty val u h = absurd h
    parse_upper-kept lt (unknown b) val u h = absurd h

    parse_first-kept :
        (lt ut : BoundType) (v : T) (u : Option T)
        → is_unbounded lt ≡ false
        → IsBound ut u
        → parse_bounds lt ut (sized (element v) ++ bytes_of (kept ut u))
          ≡ given (untyped (some (element v)) (kept ut u) lt ut)
    unfolding parse_bounds parse_first
    parse_first-kept lt ut v u bounded k = rw bounded (
        ap (λ a. a >>= (λ r. parse_upper lt ut r.0 r.1))
          (read_bound-sized (element v) (bytes_of (kept ut u)) (appends v []).1)
        ∙ parse_upper-kept lt ut (element v) u k)

    parse_bounds-kept :
        (lt ut : BoundType) (l u : Option T)
        → IsBound lt l
        → IsBound ut u
        → parse_bounds lt ut (bytes_of (kept lt l) ++ bytes_of (kept ut u))
          ≡ given (untyped (kept lt l) (kept ut u) lt ut)
    unfolding parse_bounds parse_first no_trailing
    parse_bounds-kept inclusive ut (some v) u h k = parse_first-kept inclusive ut v u refl k
    parse_bounds-kept exclusive ut (some v) u h k = parse_first-kept exclusive ut v u refl k
    parse_bounds-kept inclusive ut none u h k = absurd h
    parse_bounds-kept exclusive ut none u h k = absurd h
    parse_bounds-kept empty ut l u h k = absurd h
    parse_bounds-kept (unknown b) ut l u h k = absurd h
    parse_bounds-kept unbounded unbounded l u h k = refl
    parse_bounds-kept unbounded inclusive l (some v) h k =
        ap (λ a. a >>= (λ r. parse_first unbounded inclusive r.0 r.1))
          (read_last-sized (element v) (appends v []).1)
    parse_bounds-kept unbounded exclusive l (some v) h k =
        ap (λ a. a >>= (λ r. parse_first unbounded exclusive r.0 r.1))
          (read_last-sized (element v) (appends v []).1)
    parse_bounds-kept unbounded inclusive l none h k = absurd k
    parse_bounds-kept unbounded exclusive l none h k = absurd k
    parse_bounds-kept unbounded empty l u h k = absurd k
    parse_bounds-kept unbounded (unknown b) l u h k = absurd k

    encode_bounds-kept :
        (lt ut : BoundType) (l u : Option T) (t : ℕ) (buf : List ℕ)
        → IsBound lt l
        → IsBound ut u
        → (lower_mask lt >>= (λ m. upper_mask m ut)) ≡ given t
        → encode_bounds encode_element (ranged lt ut l u) buf
          ≡ given (some (buf ++ (t ∷ (bytes_of (kept lt l) ++ bytes_of (kept ut u)))))
    unfolding encode_bounds
    encode_bounds-kept lt ut l u t buf h k mask =
        let finish : List ℕ → Answer (Option (List ℕ)) = λ b. given (some b) in
        let upper : List ℕ → Answer (Option (List ℕ)) =
          λ b. append_bound encode_element ut u b >>= finish in
        let rest : ℕ → Answer (Option (List ℕ)) =
          λ t. append_bound encode_element lt l (buf ++ (t ∷ [])) >>= upper in
        let front = buf ++ (t ∷ []) in
        sym (bind_assoc (lower_mask lt) (λ m. upper_mask m ut) rest)
        ∙ ap (λ a. a >>= rest) mask
        ∙ ap (λ a. a >>= upper) (append_bound-kept appends lt l front h)
        ∙ ap (λ a. a >>= finish) (append_bound-kept appends ut u (front ++ bytes_of (kept lt l)) k)
        ∙ ap finish (
            append_assoc front (bytes_of (kept lt l)) (bytes_of (kept ut u))
            ∙ append_assoc buf (t ∷ []) (bytes_of (kept lt l) ++ bytes_of (kept ut u)))

    encode_typed-kept :
        (lt ut : BoundType) (l u : Option T) (buf : List ℕ)
        → IsBound lt l
        → encode_range encode_element (ranged lt ut l u) buf
          ≡ encode_bounds encode_element (ranged lt ut l u) buf
    unfolding encode_range encode_typed
    encode_typed-kept inclusive ut l u buf h = refl
    encode_typed-kept exclusive ut l u buf h = refl
    encode_typed-kept unbounded ut l u buf h = refl
    encode_typed-kept empty ut l u buf h = absurd h
    encode_typed-kept (unknown b) ut l u buf h = absurd h

    -- For every encode plan of elements that appends their bytes, and every range that is not
    -- empty, with a value for each bound that is not Unbounded: the range is encoded behind the
    -- bytes of the buffer, and what was encoded is read as the same types of bounds and the bytes
    -- of the same values, with no bytes left over.
    pub range_round_trip :
        (lt ut : BoundType) (l u : Option T) (buf : List ℕ)
        → IsBound lt l
        → IsBound ut u
        → (s : List ℕ) × (encode_range encode_element (ranged lt ut l u) buf
            ≡ given (some (buf ++ s)))
          × (parse_untyped_binary_range s ≡ given (untyped (kept lt l) (kept ut u) lt ut))
    range_round_trip lt ut l u buf h k =
        let body = bytes_of (kept lt l) ++ bytes_of (kept ut u) in
        let (t, mask, types) = parse_typed lt ut l u body h k in
        (
          t ∷ body,
          encode_typed-kept lt ut l u buf h ∙ encode_bounds-kept lt ut l u t buf h k mask,
          types ∙ parse_bounds-kept lt ut l u h k,
        )
