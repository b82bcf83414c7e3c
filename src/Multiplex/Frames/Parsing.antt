-- ===== src/Multiplex/Frames/Parsing.antt =====
-- What the parser accepts and refuses, and what is safe to read from a frame that it accepted.
use nexigon.Base.{
  ℕ, zero, suc, ◌+◌, ◌≤◌, ◌<◌, ◌≡◌, ◌≢◌, refl, sym, ap, subst, ◌∙◌, ◌⊎◌, inl, inr, Option, none,
  some, List, [], ◌∷◌, arith, le→leb, le→not_ltb, ltb, ==_self, length, take, drop, get_elem?,
  Bool-cases, Option-cases, length-take, length-drop, from_be_bytes, ltb→lt, not_ltb→le,
}
use nexigon.Multiplex.Frames.{
  FieldType, channel_id, u32, array, slice, FieldValue, id, word, octets, field_size, decode,
  offsets, fields, FrameKind, Frame, ok, err, parse, parse_as, new, read_field, get_at, get_field,
  frame_tag, kind_of_tag, min_size, min_frame_size, InvalidFrameError, invalid_tag, invalid_length,
  ParseResult, hello,
}
use nexigon.Multiplex.Frames.Layout.{
  AllFit, DynamicLast, fields-DynamicLast, field_shape, DynamicLast-tail, le-min_size,
  min_size-le-length, min_size_fixed, min_size_dynamic,
}

kind_of_tag-frame_tag : (k : FrameKind) → kind_of_tag (frame_tag k) ≡ some k
unfolding kind_of_tag
kind_of_tag-frame_tag hello = refl
kind_of_tag-frame_tag _ = refl

-- The minimal size of each frame type is defined, so that the crate compiles.
pub min_size-fields :
    (k : FrameKind) → min_size (some 1) (some 0) (fields k) ≡ some (min_frame_size k)
unfolding min_frame_size
min_size-fields hello = refl
min_size-fields _ = refl

frame_tag-kind_of_tag : (b : ℕ) (k : FrameKind) → kind_of_tag b ≡ some k → frame_tag k ≡ b
unfolding kind_of_tag
frame_tag-kind_of_tag b k e = ground arith

parse_as_long :
    (k : FrameKind) (tag : ℕ) (bytes : List ℕ)
    → min_frame_size k ≤ length bytes
    → parse_as (some k) tag bytes ≡ ok (record { kind = k; bytes = bytes })
unfolding parse_as
parse_as_long k tag bytes h = rw (le→not_ltb _ _ h) refl

-- The parser gives back every frame that a constructor built from fitting values.
pub parse-new :
    (k : FrameKind) (vs : List FieldValue)
    → AllFit (fields k) vs
    → parse (new k vs).bytes ≡ ok (new k vs)
unfolding parse new
parse-new k vs a =
    let enough =
      min_size-le-length (fields k) vs 1 (min_frame_size k) (some 0) (fields-DynamicLast k) a
        (min_size-fields k) in
    rw kind_of_tag-frame_tag (parse_as_long k (frame_tag k) _ (omega arith))

-- What an accepted byte string is: the tag of the frame's type stands in front, the minimal size is
-- reached, and the frame holds the bytes unchanged.
abbrev pub Accepts : List ℕ → Frame → Type 0
Accepts bytes f =
    (f.bytes ≡ bytes)
    × (min_frame_size f.kind ≤ length bytes)
    × (get_elem? bytes 0 ≡ some (frame_tag f.kind))

-- Why a byte string is refused: it is empty, no frame type has its tag, or it is too short for the
-- type that has.
abbrev pub Refuses : List ℕ → InvalidFrameError → Type 0
Refuses bytes e =
    ((bytes ≡ []) × (e ≡ invalid_length 1))
    ⊎ ((b : ℕ) × (get_elem? bytes 0 ≡ some b)
        × ((k : FrameKind) → frame_tag k ≢ b)
        × (e ≡ invalid_tag b))
    ⊎ ((k : FrameKind) × (get_elem? bytes 0 ≡ some (frame_tag k))
        × (length bytes < min_frame_size k)
        × (e ≡ invalid_length (min_frame_size k)))

abbrev pub Explains : List ℕ → ParseResult → Type 0
Explains bytes (ok f) = Accepts bytes f
Explains bytes (err e) = Refuses bytes e

parse_known :
    (k : FrameKind) (b : ℕ) (rest : List ℕ)
    → frame_tag k ≡ b
    → Explains (b ∷ rest) (parse_as (some k) b (b ∷ rest))
unfolding parse_as
parse_known k b rest t = elim (Bool-cases (ltb (length (b ∷ rest)) (min_frame_size k))) [
  | inl short ↦ rw short (inr (inr (k, ap some (sym t), ltb→lt _ _ short, refl)))
  | inr long ↦ rw long (refl, not_ltb→le _ _ long, ap some (sym t))
]

unknown_tag : (b : ℕ) → kind_of_tag b ≡ none → (k : FrameKind) → frame_tag k ≢ b
unknown_tag b e k t =
    let e' : kind_of_tag (frame_tag k) ≡ none = rw t e in cc (e', kind_of_tag-frame_tag k)

-- On every byte string the parser returns, and its answer is explained by the bytes.
pub parse_explained : (bytes : List ℕ) → Explains bytes (parse bytes)
unfolding parse
parse_explained [] = inl (refl, refl)
parse_explained (b ∷ rest) = elim (Option-cases (kind_of_tag b)) [
  | inl e ↦ rw (e, parse_as) (inr (inl (b, refl, unknown_tag b e, refl)))
  | inr (k, e) ↦ rw e (parse_known k b rest (frame_tag-kind_of_tag b k e))
]

-- Decoding a slice of the right size does not panic.
decode_sized :
    (t : FieldType) (n : ℕ) (bs : List ℕ)
    → field_size t ≡ some n
    → length bs ≡ n
    → (v : FieldValue) × (decode t bs ≡ some v)
decode_sized channel_id n bs f e =
    let h : length bs ≡ 8 = ground arith in (id (from_be_bytes bs), rw h refl)
decode_sized u32 n bs f e =
    let h : length bs ≡ 4 = ground arith in (word (from_be_bytes bs), rw h refl)
decode_sized (array m) n bs f e =
    let h : length bs ≡ m = ground arith in (octets bs, rw (h, ==_self m) refl)
decode_sized slice n bs f e = cc

read_field_fits :
    (t : FieldType) (n o : ℕ) (bs : List ℕ)
    → field_size t ≡ some n
    → o + n ≤ length bs
    → (v : FieldValue) × (read_field t o bs ≡ some v)
read_field_fits t n o bs f h =
    rw (f, le→leb _ _ h)
      (decode_sized t n (take n (drop o bs)) f
        (length-take n (drop o bs) (omega (arith, length-drop o bs))))

get_at_fits :
    (ts : List FieldType) (o m i : ℕ) (bs : List ℕ) (previous : Option ℕ) {t : FieldType}
    → DynamicLast ts
    → min_size (some o) previous ts ≡ some m
    → m ≤ length bs
    → get_elem? ts i ≡ some t
    → (v : FieldValue) × (get_at (offsets (some o) ts) ts i bs ≡ some v)
unfolding get_at offsets
get_at_fits [] o m i bs previous d e h g = cc
get_at_fits (t ∷ ts) o m zero bs previous d e h g = elim (field_shape t ts d) [
  | inl (n, f) ↦
      let below =
        le-min_size ts (o + n) m (some o) (DynamicLast-tail t ts d)
          (sym (min_size_fixed t ts o n previous f) ∙ e) in
      read_field_fits t n o bs f (omega arith)
  | inr (f, z) ↦
      let same : o ≡ m = ground (arith, min_size_dynamic t ts o previous f z) in
      (octets (drop o bs), rw (f, le→leb o (length bs) (omega arith)) refl)
]
get_at_fits (t ∷ ts) o m (suc i) bs previous {t = u} d e h g = elim (field_shape t ts d) [
  | inl (n, f) ↦ rw f (
      get_at_fits ts (o + n) m i bs (some o) (DynamicLast-tail t ts d)
        (sym (min_size_fixed t ts o n previous f) ∙ e) h g)
  | inr (f, z) ↦ let g' : get_elem? [] i ≡ some u = rw z at g in absurd (cc)
]

-- No getter of an accepted frame panics: every field of the frame's type has a value.
pub get_field-parse :
    (bytes : List ℕ) (f : Frame) (i : ℕ) (t : FieldType)
    → parse bytes ≡ ok f
    → get_elem? (fields f.kind) i ≡ some t
    → (v : FieldValue) × (get_field f i ≡ some v)
unfolding get_field
get_field-parse bytes f i t e g =
    let (same, long, _) : Accepts bytes f = subst (Explains bytes) e (parse_explained bytes) in
    get_at_fits (fields f.kind) 1 (min_frame_size f.kind) i f.bytes (some 0)
      (fields-DynamicLast f.kind) (min_size-fields f.kind) (rw same long) g
