-- ===== src/Multiplex/Frames/RoundTrip.antt =====
-- Frames that the constructors build: their getters, their setters and the parser.
use nexigon.Base.{
  ℕ, zero, suc, ◌+◌, ◌≤◌, ◌<◌, ◌≡◌, refl, ap, subst, ◌∙◌, inl, inr, some, List, [], ◌∷◌, ◌++◌,
  append_assoc, append-nil, arith, le→leb, ==_self, length, take, get_elem?, set, length-append,
  take-append, drop-append, slice?-append, ◌>>=◌,
}
use nexigon.Multiplex.Frames.{
  FieldType, slice, FieldValue, field_size, encode, offsets, fields, FrameKind, new, encode_fields,
  read_field, write_field, get_at, set_at, get_field, set_field, frame_tag,
}
use nexigon.Multiplex.Frames.Layout.{
  Fits, AllFit, DynamicLast, fields-DynamicLast, length-encode, decode-encode, field_shape,
  DynamicLast-tail,
}

-- A field of fixed size is read back from between its neighbours.
read_field_fixed :
    (t : FieldType) (v : FieldValue) (o n : ℕ) (pre post : List ℕ)
    → field_size t ≡ some n
    → Fits t v
    → length pre ≡ o
    → read_field t o (pre ++ (encode v ++ post)) ≡ some v
read_field_fixed t v o n pre post f h e =
    rw (f, slice?-append pre (encode v) post o n e (length-encode t v h f)) (decode-encode t v h)

-- A dynamic field is what stands behind its offset.
read_field_dynamic :
    (v : FieldValue) (o : ℕ) (pre : List ℕ)
    → Fits slice v
    → length pre ≡ o
    → read_field slice o (pre ++ encode v) ≡ some v
read_field_dynamic v o pre h e =
    rw
      (
        ← e,
        drop-append pre (encode v),
        le→leb (length pre) (length (pre ++ encode v))
            (omega (arith, length-append pre (encode v))),
      )
      (decode-encode slice v h)

no_more :
    (vs : List FieldValue) → AllFit [] vs → (i : ℕ) {v : FieldValue} → get_elem? vs i ≡ some v → ⊥
no_more [] a i h = cc
no_more (w ∷ vs) a i h = a

nothing_left : (vs : List FieldValue) → AllFit [] vs → (i : ℕ) → i < length vs → ⊥
nothing_left [] a i h = omega arith
nothing_left (w ∷ vs) a i h = a

nothing_encoded : (vs : List FieldValue) → AllFit [] vs → encode_fields vs ≡ []
unfolding encode_fields
nothing_encoded [] a = refl
nothing_encoded (w ∷ vs) a = absurd a

last_field :
    (t : FieldType) (ts : List FieldType) (w : FieldValue) (vs : List FieldValue) (o : ℕ)
    (pre : List ℕ)
    → t ≡ slice
    → ts ≡ []
    → AllFit (t ∷ ts) (w ∷ vs)
    → length pre ≡ o
    → read_field t o (pre ++ (encode w ++ encode_fields vs)) ≡ some w
last_field t ts w vs o pre f g a e =
    rw (nothing_encoded vs (subst (λ x. AllFit x vs) g a.1), append-nil (encode w), f)
      (read_field_dynamic w o pre (subst (λ x. Fits x w) f a.0) e)

-- The bytes before the next field are those before this one and this one.
next_offset :
    (t : FieldType) (v : FieldValue) (o n : ℕ) (pre : List ℕ)
    → field_size t ≡ some n
    → Fits t v
    → length pre ≡ o
    → length (pre ++ encode v) ≡ o + n
next_offset t v o n pre f h e = omega (arith, length-append pre (encode v), length-encode t v h f)

get_at_encoded :
    (ts : List FieldType) (vs : List FieldValue) (o i : ℕ) (pre : List ℕ) {v : FieldValue}
    → length pre ≡ o
    → DynamicLast ts
    → AllFit ts vs
    → get_elem? vs i ≡ some v
    → get_at (offsets (some o) ts) ts i (pre ++ encode_fields vs) ≡ some v
unfolding get_at offsets encode_fields
get_at_encoded [] [] o i pre e d a h = cc
get_at_encoded [] (w ∷ vs) o i pre e d a h = absurd a
get_at_encoded (t ∷ ts) [] o i pre e d a h = absurd a
get_at_encoded (t ∷ ts) (w ∷ vs) o zero pre {v} e d a h = elim (field_shape t ts d) [
  | inl (n, f) ↦ read_field_fixed t w o n pre (encode_fields vs) f a.0 e ∙ h
  | inr (f, g) ↦ last_field t ts w vs o pre f g a e ∙ h
]
get_at_encoded (t ∷ ts) (w ∷ vs) o (suc i) pre {v} e d a h = elim (field_shape t ts d) [
  | inl (n, f) ↦
      rw (f, ← append_assoc pre (encode w) (encode_fields vs))
        (get_at_encoded ts vs (o + n) i (pre ++ encode w) (next_offset t w o n pre f a.0 e)
          (DynamicLast-tail t ts d) a.1 h)
  | inr (f, g) ↦ absurd (no_more vs (subst (λ x. AllFit x vs) g a.1) i h)
]

-- Every getter of a frame returns the value that the constructor was given.
pub get_field-new :
    (k : FrameKind) (vs : List FieldValue) (i : ℕ) (v : FieldValue)
    → AllFit (fields k) vs
    → get_elem? vs i ≡ some v
    → get_field (new k vs) i ≡ some v
unfolding get_field new
get_field-new k vs i v a h =
    get_at_encoded (fields k) vs 1 i (frame_tag k ∷ []) refl (fields-DynamicLast k) a h

write_field_fixed :
    (t : FieldType) (v w : FieldValue) (o n : ℕ) (pre post : List ℕ)
    → field_size t ≡ some n
    → Fits t v
    → Fits t w
    → length pre ≡ o
    → write_field t o (encode v) (pre ++ (encode w ++ post)) ≡ some (pre ++ (encode v ++ post))
write_field_fixed t v w o n pre post f hv hw e =
    rw
      (
        f,
        le→leb (o + n) (length (pre ++ (encode w ++ post))) fits,
        length-encode t v hv f,
        ==_self n,
        ← next_offset t w o n pre f hw e,
        ← append_assoc pre (encode w) post,
        drop-append (pre ++ encode w) post,
      )
      (ap (λ x. some (x ++ (encode v ++ post))) front)
  where
    fits : o + n ≤ length (pre ++ (encode w ++ post))
    fits = omega (
      arith,
      e,
      length-encode t w hw f,
      length-append pre (encode w ++ post),
      length-append (encode w) post,
    )

    front : take o ((pre ++ encode w) ++ post) ≡ pre
    front = rw (append_assoc pre (encode w) post, ← e) (take-append pre (encode w ++ post))

write_last_field :
    (t : FieldType) (v : FieldValue) (vs : List FieldValue) (o : ℕ) (pre rest : List ℕ)
    → t ≡ slice
    → AllFit [] vs
    → length pre ≡ o
    → write_field t o (encode v) (pre ++ rest) ≡ some (pre ++ (encode v ++ encode_fields vs))
write_last_field t v vs o pre rest f a e =
    rw (f, nothing_encoded vs a, append-nil (encode v), ← e, take-append pre rest) refl

set_at_encoded :
    (ts : List FieldType) (vs : List FieldValue) (o i : ℕ) (pre : List ℕ) (v : FieldValue)
    → length pre ≡ o
    → DynamicLast ts
    → AllFit ts vs
    → AllFit ts (set vs i v)
    → i < length vs
    → set_at (offsets (some o) ts) ts i (encode v) (pre ++ encode_fields vs)
      ≡ some (pre ++ encode_fields (set vs i v))
unfolding set_at offsets encode_fields
set_at_encoded ts [] o i pre v e d a b h = absurd (omega arith)
set_at_encoded [] (w ∷ vs) o i pre v e d a b h = absurd a
set_at_encoded (t ∷ ts) (w ∷ vs) o zero pre v e d a b h = elim (field_shape t ts d) [
  | inl (n, f) ↦ write_field_fixed t v w o n pre (encode_fields vs) f b.0 a.0 e
  | inr (f, g) ↦ write_last_field t v vs o pre _ f (subst (λ x. AllFit x vs) g a.1) e
]
set_at_encoded (t ∷ ts) (w ∷ vs) o (suc i) pre v e d a b h = elim (field_shape t ts d) [
  | inl (n, f) ↦
      rw
        (
          f,
          ← append_assoc pre (encode w) (encode_fields vs),
          ← append_assoc pre (encode w) (encode_fields (set vs i v)),
        )
        (set_at_encoded ts vs (o + n) i (pre ++ encode w) v (next_offset t w o n pre f a.0 e)
          (DynamicLast-tail t ts d) a.1 b.1 (omega arith))
  | inr (f, g) ↦ absurd (nothing_left vs (subst (λ x. AllFit x vs) g a.1) i (omega arith))
]

-- A setter gives the frame that the constructor gives for the changed value: it changes that field
-- and nothing else, and it never panics.
pub set_field-new :
    (k : FrameKind) (vs : List FieldValue) (i : ℕ) (v : FieldValue)
    → AllFit (fields k) vs
    → AllFit (fields k) (set vs i v)
    → i < length vs
    → set_field (new k vs) i v ≡ some (new k (set vs i v))
unfolding set_field new
set_field-new k vs i v a b h =
    ap (λ r. r >>= λ bytes. some (record { kind = k; bytes = bytes }))
      (set_at_encoded (fields k) vs 1 i (frame_tag k ∷ []) v refl (fields-DynamicLast k) a b h)
