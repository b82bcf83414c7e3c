-- ===== src/Multiplex/Frames/Layout.antt =====
-- Facts about the layout of a list of fields, for every frame type at once.
use nexigon.Base.{
  ℕ, ◌+◌, ◌≤◌, ◌<◌, ◌^◌, ◌≡◌, refl, sym, ◌∙◌, ◌⊎◌, inl, inr, Option, some, List, [], ◌∷◌, arith,
  length, length-append, length-to_be_bytes, from_be_bytes-to_be_bytes, ==_self,
}
use nexigon.Multiplex.Frames.{
  FieldType, channel_id, u32, array, slice, FieldValue, id, word, octets, field_size, encode,
  decode, min_size, FrameKind, fields, hello, close, channel_request, channel_accept,
  channel_reject, channel_data, channel_adjust, channel_close, channel_closed, ping, pong,
  encode_fields,
}

-- A value that the Rust type of the field admits.
abbrev pub Fits : FieldType → FieldValue → Type 0
Fits channel_id (id v) = v < 256 ^ 8
Fits channel_id (word v) = ⊥
Fits channel_id (octets bs) = ⊥
Fits u32 (id v) = ⊥
Fits u32 (word v) = v < 256 ^ 4
Fits u32 (octets bs) = ⊥
Fits (array n) (id v) = ⊥
Fits (array n) (word v) = ⊥
Fits (array n) (octets bs) = length bs ≡ n
Fits slice (id v) = ⊥
Fits slice (word v) = ⊥
Fits slice (octets bs) = Unit {0}

abbrev pub AllFit : List FieldType → List FieldValue → Type 0
AllFit [] [] = Unit {0}
AllFit [] (v ∷ vs) = ⊥
AllFit (t ∷ ts) [] = ⊥
AllFit (t ∷ ts) (v ∷ vs) = Fits t v × AllFit ts vs

-- Every field but the last has a fixed size.
abbrev pub DynamicLast : List FieldType → Type 0
DynamicLast [] = Unit {0}
DynamicLast (t ∷ []) = Unit {0}
DynamicLast (t ∷ u ∷ ts) = ((n : ℕ) × (field_size t ≡ some n)) × DynamicLast (u ∷ ts)

pub fields-DynamicLast : (k : FrameKind) → DynamicLast (fields k)
fields-DynamicLast hello = ((16, refl), tt)
fields-DynamicLast close = tt
fields-DynamicLast channel_request = ((8, refl), ((4, refl), ((4, refl), tt)))
fields-DynamicLast channel_accept = ((8, refl), ((8, refl), ((4, refl), tt)))
fields-DynamicLast channel_reject = ((8, refl), tt)
fields-DynamicLast channel_data = ((8, refl), tt)
fields-DynamicLast channel_adjust = ((8, refl), ((4, refl), tt))
fields-DynamicLast channel_close = ((8, refl), tt)
fields-DynamicLast channel_closed = ((8, refl), tt)
fields-DynamicLast ping = tt
fields-DynamicLast pong = tt

pub length-encode :
    (t : FieldType) (v : FieldValue) {n : ℕ}
    → Fits t v
    → field_size t ≡ some n
    → length (encode v) ≡ n
length-encode channel_id (id v) h e = length-to_be_bytes 8 v ∙ ground arith
length-encode channel_id (word v) h e = absurd h
length-encode channel_id (octets bs) h e = absurd h
length-encode u32 (id v) h e = absurd h
length-encode u32 (word v) h e = length-to_be_bytes 4 v ∙ ground arith
length-encode u32 (octets bs) h e = absurd h
length-encode (array m) (id v) h e = absurd h
length-encode (array m) (word v) h e = absurd h
length-encode (array m) (octets bs) h e = ground arith
length-encode slice (id v) h e = absurd h
length-encode slice (word v) h e = absurd h
length-encode slice (octets bs) h e = cc

-- Decoding what was encoded.
pub decode-encode : (t : FieldType) (v : FieldValue) → Fits t v → decode t (encode v) ≡ some v
decode-encode channel_id (id v) h = rw (length-to_be_bytes 8 v, from_be_bytes-to_be_bytes 8 v h)
decode-encode channel_id (word v) h = absurd h
decode-encode channel_id (octets bs) h = absurd h
decode-encode u32 (id v) h = absurd h
decode-encode u32 (word v) h = rw (length-to_be_bytes 4 v, from_be_bytes-to_be_bytes 4 v h)
decode-encode u32 (octets bs) h = absurd h
decode-encode (array m) (id v) h = absurd h
decode-encode (array m) (word v) h = absurd h
decode-encode (array m) (octets bs) h = rw (h, ==_self m)
decode-encode slice (id v) h = absurd h
decode-encode slice (word v) h = absurd h
decode-encode slice (octets bs) h = refl

-- A field has a fixed size, or it is the dynamic one and nothing stands behind it.
pub field_shape :
    (t : FieldType) (ts : List FieldType)
    → DynamicLast (t ∷ ts)
    → ((n : ℕ) × (field_size t ≡ some n)) ⊎ ((t ≡ slice) × (ts ≡ []))
field_shape t (u ∷ ts) d = inl d.0
field_shape channel_id [] d = inl (8, refl)
field_shape u32 [] d = inl (4, refl)
field_shape (array n) [] d = inl (n, refl)
field_shape slice [] d = inr (refl, refl)

pub DynamicLast-tail : (t : FieldType) (ts : List FieldType) → DynamicLast (t ∷ ts) → DynamicLast ts
DynamicLast-tail t [] d = tt
DynamicLast-tail t (u ∷ ts) d = d.1

pub min_size_fixed :
    (t : FieldType) (ts : List FieldType) (o n : ℕ) (previous : Option ℕ)
    → field_size t ≡ some n
    → min_size (some o) previous (t ∷ ts) ≡ min_size (some (o + n)) (some o) ts
unfolding min_size
min_size_fixed t ts o n previous e = rw e refl

pub min_size_dynamic :
    (t : FieldType) (ts : List FieldType) (o : ℕ) (previous : Option ℕ)
    → t ≡ slice
    → ts ≡ []
    → min_size (some o) previous (t ∷ ts) ≡ some o
unfolding min_size
min_size_dynamic t ts o previous e e' = rw (e, e') refl

-- The minimal size is at least the offset from which it is computed.
pub le-min_size :
    (ts : List FieldType) (o m : ℕ) (previous : Option ℕ)
    → DynamicLast ts
    → min_size (some o) previous ts ≡ some m
    → o ≤ m
le-min_size [] o m previous d e = unfold min_size in ground arith
le-min_size (t ∷ ts) o m previous d e = elim (field_shape t ts d) [
  | inl (n, f) ↦
      let below =
        le-min_size ts (o + n) m (some o) (DynamicLast-tail t ts d)
          (sym (min_size_fixed t ts o n previous f) ∙ e) in
      omega arith
  | inr (f, g) ↦ ground (arith, min_size_dynamic t ts o previous f g)
]

-- The bytes of fitting values reach the minimal size.
pub min_size-le-length :
    (ts : List FieldType) (vs : List FieldValue) (o m : ℕ) (previous : Option ℕ)
    → DynamicLast ts
    → AllFit ts vs
    → min_size (some o) previous ts ≡ some m
    → m ≤ o + length (encode_fields vs)
unfolding encode_fields
min_size-le-length [] [] o m previous d a e = unfold min_size in ground arith
min_size-le-length [] (v ∷ vs) o m previous d a e = absurd a
min_size-le-length (t ∷ ts) [] o m previous d a e = absurd a
min_size-le-length (t ∷ ts) (v ∷ vs) o m previous d a e = elim (field_shape t ts d) [
  | inl (n, f) ↦
      let rest =
        min_size-le-length ts vs (o + n) m (some o) (DynamicLast-tail t ts d) a.1
          (sym (min_size_fixed t ts o n previous f) ∙ e) in
      omega (arith, length-append (encode v) (encode_fields vs), length-encode t v a.0 f)
  | inr (f, g) ↦ ground (arith, min_size_dynamic t ts o previous f g)
]
