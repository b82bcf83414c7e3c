-- ===== src/Rpc/Limits.antt =====
-- crates/libs/nexigon-rpc/src/lib.rs: the limits on a call that is read.
use nexigon.Base.{
  ℕ, ◌≤◌, ◌≡◌, refl, sym, List, Option, none, some, true, ltb, length, from_be_bytes, either_way,
  then_way, else_way, Bool-cases, inl, inr, not_ltb→le, arith,
}
use nexigon.Rpc.{
  Source, Ending, ok, err, exhausted, panics, and_then, map_err, or_err, max_action_name_size,
  max_input_size,
}
use nexigon.Rpc.Bodies.{read_body}
use nexigon.Rpc.Streams.{Bounded}
use nexigon.Rpc.Reading.{IsBody, read_body-IsBody}
use nexigon.Rpc.Messages.{
  Host, ActionHeader, SerializedAction, ReadError, read_input_size, read_name, read_action_header,
  read_action_body, read_action, map_action_body_read, read_failed,
}

-- The operation ends with an error, or with a value of which `P` holds.
abbrev pub Ends {ℓ κ} : {E : Type ℓ} {A : Type κ} → (A → Type 0) → Ending E A → Type 0
Ends P (ok a) = P a
Ends P (err e) = Unit {0}
Ends P exhausted = ⊥
Ends P panics = ⊥

and_then-Ends {ℓ κ μ ν} :
    {S : Type ℓ} {E : Type κ} {A : Type μ} {B : Type ν} (P : A → Type 0) (Q : B → Type 0)
    (p : S × Ending E A) (k : S → A → S × Ending E B)
    → Ends P p.1
    → ((s : S) (a : A) → P a → Ends Q (k s a).1)
    → Ends Q (and_then p k).1
unfolding and_then
and_then-Ends P Q (s, ok a) k h f = f s a h
and_then-Ends P Q (s, err e) k h f = tt
and_then-Ends P Q (s, exhausted) k h f = absurd h
and_then-Ends P Q (s, panics) k h f = absurd h

or_err-Ends {ℓ κ μ} :
    {S : Type ℓ} {E : Type κ} {A : Type μ} (P : A → Type 0) (e : E) (p : S × Option A)
    → ((a : A) → p.1 ≡ some a → P a)
    → Ends P (or_err e p).1
or_err-Ends P e (s, some a) f = f a refl
or_err-Ends P e (s, none) f = tt

map_err-Ends {ℓ κ} :
    {E : Type ℓ} {F : Type κ} (f : E → F) (size : ℕ) (o : Ending E (List ℕ))
    → IsBody size o
    → Ends (λ bs. length bs ≡ size) (map_err f o)
map_err-Ends f size (ok bs) h = h
map_err-Ends f size (err e) h = tt
map_err-Ends f size exhausted h = h
map_err-Ends f size panics h = h

abbrev IsHeader : ActionHeader → Type 0
IsHeader header = (length header.name ≤ max_action_name_size) × (header.input_size ≤ max_input_size)

abbrev pub IsAction : Host → SerializedAction → Type 0
IsAction host action =
    (length action.action_name ≤ max_action_name_size)
    × (length action.input ≤ max_input_size)
    × (action.permit ≡ length action.input)
    × (host.grants action.permit ≡ true)

module _ {ℓ} {R : Type ℓ} (source : Source R) (host : Host) (bounded : Bounded source) where
  abbrev Headed : R × Ending ReadError ActionHeader → Type 0
  Headed p = Ends IsHeader p.1

  read_input_size-Ends :
      (r : R) (name : List ℕ)
      → length name ≤ max_action_name_size
      → Headed (read_input_size source host r name)
  unfolding read_input_size
  read_input_size-Ends r name h =
      and_then-Ends (λ bs. Unit {0}) IsHeader (or_err read_failed (source.read_exact r 4)) _
        (or_err-Ends (λ bs. Unit {0}) read_failed (source.read_exact r 4) (λ bs e. tt))
        (λ s word u. elim (Bool-cases (ltb max_input_size (from_be_bytes word))) [
          | inl big ↦ then_way Headed (ltb max_input_size (from_be_bytes word)) _ _ big tt
          | inr fits ↦
              else_way Headed (ltb max_input_size (from_be_bytes word)) _ _ fits
                (h, not_ltb→le _ _ fits)
        ])

  read_action_header-Ends : (r : R) → Headed (read_action_header source host r)
  unfolding read_action_header read_name
  read_action_header-Ends r =
      and_then-Ends (λ bs. Unit {0}) IsHeader (or_err read_failed (source.read_exact r 2)) _
        (or_err-Ends (λ bs. Unit {0}) read_failed (source.read_exact r 2) (λ bs e. tt))
        (λ s word u. elim (Bool-cases (ltb max_action_name_size (from_be_bytes word))) [
          | inl big ↦ then_way Headed (ltb max_action_name_size (from_be_bytes word)) _ _ big tt
          | inr fits ↦ else_way Headed (ltb max_action_name_size (from_be_bytes word)) _ _ fits (
              and_then-Ends (λ bs. length bs ≡ from_be_bytes word) IsHeader
                (or_err read_failed (source.read_exact s (from_be_bytes word))) _
                (or_err-Ends (λ bs. length bs ≡ from_be_bytes word) read_failed
                  (source.read_exact s (from_be_bytes word))
                  (λ bs e. bounded.fills_all s (from_be_bytes word) bs e))
                (λ t name same.
                  either_way Headed (host.is_utf8 name) _ _
                    (read_input_size-Ends t name (let h = not_ltb→le _ _ fits in omega arith)) tt))
        ])

  read_action_body-Ends :
      (r : R) (header : ActionHeader)
      → IsHeader header
      → Ends (IsAction host) (read_action_body source host r header).1
  unfolding read_action_body
  read_action_body-Ends r header (short, small) =
      elim (Bool-cases (host.grants header.input_size)) [
        | inr refused ↦ rw refused tt
        | inl granted ↦
            then_way (λ (p : R × Ending ReadError SerializedAction). Ends (IsAction host) p.1)
              (host.grants header.input_size) _ _ granted
              (and_then-Ends (λ bs. length bs ≡ header.input_size) (IsAction host) _ _
                (map_err-Ends map_action_body_read header.input_size
                  (read_body source host.reserve r header.input_size).1
                  (read_body-IsBody source host.reserve bounded r header.input_size))
                (λ s bs same. (short, omega arith, sym same, granted)))
      ]

  -- Reading a call ends, whatever the stream delivers, with an error or with a call within the limits: a name
  -- of at most 255 bytes, an input of at most 8 MiB, and a granted permit for exactly the input.
  pub read_action-IsAction : (r : R) → Ends (IsAction host) (read_action source host r).1
  unfolding read_action
  read_action-IsAction r =
      and_then-Ends IsHeader (IsAction host) (read_action_header source host r) _
        (read_action_header-Ends r) (λ s header h. read_action_body-Ends s header h)
