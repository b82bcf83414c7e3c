-- ===== src/Commands/Instance/Counting.antt =====
-- crates/apps/nexigon-agent/src/handlers.rs: `visit` of `validate_command_instance` against the depth, the
-- number of values and the bytes of a value.
use nexigon.Commands.Instance.{begin_visit, end_visit, visit, visit_items, visit_fields}
use nexigon.Base.{
  ℕ, suc, ◌+◌, ◌≤◌, ◌≡◌, refl, some, length, arith, checked_add, usize_max, ap, ◌∙◌, bind-some,
}
use nexigon.Commands.Json.{
  Json, null, boolean, number, string, array, object, Items, nil, cons, Fields, end, field, nodes,
  scalars, height, height_items, nodes_items, scalars_items, height_fields, nodes_fields,
  scalars_fields,
}

begin_visit-some : (d n m : ℕ) → begin_visit d n ≡ some m → (d ≤ 64) × (m ≡ suc n) × (m ≤ 1024)
unfolding begin_visit
begin_visit-some d n m e = ground arith

end_visit-some :
    (n b : ℕ) (r : ℕ × ℕ) → end_visit n b ≡ some r → (r.0 ≡ n) × (r.1 ≡ b) × (b ≤ 65536)
unfolding end_visit
end_visit-some n b r e = ground arith

begin_visit_fits : (d n : ℕ) → d ≤ 64 → suc n ≤ 1024 → begin_visit d n ≡ some (suc n)
unfolding begin_visit
begin_visit_fits d n h k = ground arith

end_visit_fits : (n b : ℕ) → b ≤ 65536 → end_visit n b ≡ some (n, b)
unfolding end_visit
end_visit_fits n b h = ground arith

checked_add-some : (a b c : ℕ) → checked_add usize_max a b ≡ some c → c ≡ a + b
checked_add-some a b c e = ground arith

checked_add_fits : (a b : ℕ) → a + b ≤ 65536 → checked_add usize_max a b ≡ some (a + b)
checked_add_fits a b h = ground arith

-- What the counts of a visit say of a value, and of the children of one.
abbrev Counts : Json → ℕ → ℕ → ℕ → ℕ × ℕ → Type 0
Counts v d n b r =
    (d + height v ≤ 64) × (r.0 ≡ n + nodes v) × (r.0 ≤ 1024) × (r.1 ≡ b + scalars v) × (r.1 ≤ 65536)

abbrev CountsAll : ℕ → ℕ → ℕ → ℕ → ℕ → ℕ → ℕ × ℕ → Type 0
CountsAll h k s d n b r = (d + h ≤ 65) × (r.0 ≡ n + k) × (r.0 ≤ 1024) × (r.1 ≡ b + s)

mutual
  unfolding visit nodes scalars height

  pub visit-Counts : (v : Json) (d n b : ℕ) (r : ℕ × ℕ) → visit v d n b ≡ some r → Counts v d n b r
  visit-Counts null d n b r e =
      let (m, p, q) = bind-some (begin_visit d n) _ r e in
      let x = begin_visit-some d n m p in
      let y = end_visit-some m b r q in
      (omega arith, omega arith, omega arith, omega arith, omega arith)
  visit-Counts (boolean t) d n b r e =
      let (m, p, q) = bind-some (begin_visit d n) _ r e in
      let x = begin_visit-some d n m p in
      let y = end_visit-some m (b + 1) r q in
      (omega arith, omega arith, omega arith, omega arith, omega arith)
  visit-Counts (number t) d n b r e =
      let (m, p, q) = bind-some (begin_visit d n) _ r e in
      let (c, i, j) = bind-some (checked_add usize_max b (length t)) _ r q in
      let x = begin_visit-some d n m p in
      let y = end_visit-some m c r j in
      let z = checked_add-some b (length t) c i in
      (omega arith, omega arith, omega arith, omega arith, omega arith)
  visit-Counts (string t) d n b r e =
      let (m, p, q) = bind-some (begin_visit d n) _ r e in
      let (c, i, j) = bind-some (checked_add usize_max b (length t)) _ r q in
      let x = begin_visit-some d n m p in
      let y = end_visit-some m c r j in
      let z = checked_add-some b (length t) c i in
      (omega arith, omega arith, omega arith, omega arith, omega arith)
  visit-Counts (array xs) d n b r e =
      let (m, p, q) = bind-some (begin_visit d n) _ r e in
      let ((k, c), i, j) = bind-some (visit_items xs (suc d) m b) _ r q in
      let x = begin_visit-some d n m p in
      let y = end_visit-some k c r j in
      let z = visit_items-Counts xs (suc d) m b (k, c) (omega arith) (omega arith) i in
      (omega arith, omega arith, omega arith, omega arith, omega arith)
  visit-Counts (object fs) d n b r e =
      let (m, p, q) = bind-some (begin_visit d n) _ r e in
      let ((k, c), i, j) = bind-some (visit_fields fs (suc d) m b) _ r q in
      let x = begin_visit-some d n m p in
      let y = end_visit-some k c r j in
      let z = visit_fields-Counts fs (suc d) m b (k, c) (omega arith) (omega arith) i in
      (omega arith, omega arith, omega arith, omega arith, omega arith)

  visit_items-Counts :
      (xs : Items) (d n b : ℕ) (r : ℕ × ℕ)
      → d ≤ 65
      → n ≤ 1024
      → visit_items xs d n b ≡ some r
      → CountsAll (height_items xs) (nodes_items xs) (scalars_items xs) d n b r
  visit_items-Counts nil d n b r h k e =
      let q : (n, b) ≡ r = cc in
      let i = ap (λ p. p.0) q in
      let j = ap (λ p. p.1) q in (omega arith, omega arith, omega arith, omega arith)
  visit_items-Counts (cons x xs) d n b r h k e =
      let ((m, c), p, q) = bind-some (visit x d n b) _ r e in
      let i = visit-Counts x d n b (m, c) p in
      let j = visit_items-Counts xs d m c r h (omega arith) q in
      (omega arith, omega arith, omega arith, omega arith)

  visit_fields-Counts :
      (fs : Fields) (d n b : ℕ) (r : ℕ × ℕ)
      → d ≤ 65
      → n ≤ 1024
      → visit_fields fs d n b ≡ some r
      → CountsAll (height_fields fs) (nodes_fields fs) (scalars_fields fs) d n b r
  visit_fields-Counts end d n b r h k e =
      let q : (n, b) ≡ r = cc in
      let i = ap (λ p. p.0) q in
      let j = ap (λ p. p.1) q in (omega arith, omega arith, omega arith, omega arith)
  visit_fields-Counts (field key x fs) d n b r h k e =
      let (a, s, t) = bind-some (checked_add usize_max b (length key)) _ r e in
      let ((m, c), p, q) = bind-some (visit x d n a) _ r t in
      let u = checked_add-some b (length key) a s in
      let i = visit-Counts x d n a (m, c) p in
      let j = visit_fields-Counts fs d m c r h (omega arith) q in
      (omega arith, omega arith, omega arith, omega arith)

end_visit_to : (n b m c : ℕ) → n ≡ m → b ≡ c → c ≤ 65536 → end_visit n b ≡ some (m, c)
end_visit_to n b m c p q h = end_visit_fits n b (omega arith) ∙ cc

mutual
  unfolding visit nodes scalars height

  pub visit_fits :
      (v : Json) (d n b m c : ℕ)
      → d + height v ≤ 64
      → m ≡ n + nodes v
      → m ≤ 1024
      → c ≡ b + scalars v
      → c ≤ 65536
      → visit v d n b ≡ some (m, c)
  visit_fits null d n b m c h p i q j =
      rw (begin_visit_fits d n (omega arith) (omega arith))
        (end_visit_to (suc n) b m c (omega arith) (omega arith) j)
  visit_fits (boolean t) d n b m c h p i q j =
      rw (begin_visit_fits d n (omega arith) (omega arith))
        (end_visit_to (suc n) (b + 1) m c (omega arith) (omega arith) j)
  visit_fits (number t) d n b m c h p i q j =
      rw
        (
          begin_visit_fits d n (omega arith) (omega arith),
          checked_add_fits b (length t) (omega arith),
        )
        (end_visit_to (suc n) (b + length t) m c (omega arith) (omega arith) j)
  visit_fits (string t) d n b m c h p i q j =
      rw
        (
          begin_visit_fits d n (omega arith) (omega arith),
          checked_add_fits b (length t) (omega arith),
        )
        (end_visit_to (suc n) (b + length t) m c (omega arith) (omega arith) j)
  visit_fits (array xs) d n b m c h p i q j =
      rw
        (
          begin_visit_fits d n (omega arith) (omega arith),
          visit_items_fits xs (suc d) (suc n) b m c (omega arith) (omega arith) i q j,
        )
        (end_visit_to m c m c refl refl j)
  visit_fits (object fs) d n b m c h p i q j =
      rw
        (
          begin_visit_fits d n (omega arith) (omega arith),
          visit_fields_fits fs (suc d) (suc n) b m c (omega arith) (omega arith) i q j,
        )
        (end_visit_to m c m c refl refl j)

  visit_items_fits :
      (xs : Items) (d n b m c : ℕ)
      → d + height_items xs ≤ 65
      → m ≡ n + nodes_items xs
      → m ≤ 1024
      → c ≡ b + scalars_items xs
      → c ≤ 65536
      → visit_items xs d n b ≡ some (m, c)
  visit_items_fits nil d n b m c h p i q j =
      let a : n ≡ m = omega arith in let e : b ≡ c = omega arith in cc
  visit_items_fits (cons x xs) d n b m c h p i q j =
      rw
        (visit_fits x d n b (n + nodes x) (b + scalars x) (omega arith) refl (omega arith) refl
          (omega arith))
        (visit_items_fits xs d (n + nodes x) (b + scalars x) m c (omega arith) (omega arith) i
          (omega arith) j)

  visit_fields_fits :
      (fs : Fields) (d n b m c : ℕ)
      → d + height_fields fs ≤ 65
      → m ≡ n + nodes_fields fs
      → m ≤ 1024
      → c ≡ b + scalars_fields fs
      → c ≤ 65536
      → visit_fields fs d n b ≡ some (m, c)
  visit_fields_fits end d n b m c h p i q j =
      let a : n ≡ m = omega arith in let e : b ≡ c = omega arith in cc
  visit_fields_fits (field key x fs) d n b m c h p i q j =
      rw
        (
          checked_add_fits b (length key) (omega arith),
          visit_fits x d n (b + length key) (n + nodes x) ((b + length key) + scalars x)
              (omega arith) refl (omega arith) refl (omega arith),
        )
        (visit_fields_fits fs d (n + nodes x) ((b + length key) + scalars x) m c (omega arith)
          (omega arith) i (omega arith) j)
