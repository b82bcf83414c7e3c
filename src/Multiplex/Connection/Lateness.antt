-- ===== src/Multiplex/Connection/Lateness.antt =====
-- The data that comes late for the closed channels of a connection is bounded by their credit.
use nexigon.Base.{
  ℕ, suc, ◌+◌, ◌≡◌, refl, true, false, ◌||◌, List, [], ◌∷◌, ltb, ◌==◌, if◌then◌else◌, arith, length,
  inl, inr, Bool-cases, ◌⊎◌,
}
use nexigon.Multiplex.Connection.{ClosedChannelTombstone}
use nexigon.Multiplex.Connection.Closing.{
  discard_late, LateResult, not_closed, exceeds, late, or_later, spent,
}

-- The credit that the tombstone of a channel has left.
unfoldable pub frames_left : ℕ → List ClosedChannelTombstone → ℕ
frames_left k [] = 0
frames_left k (t ∷ ts) =
    let rest = frames_left k ts in if t.local_id == k then t.remaining_frame_credit else rest

unfoldable pub bytes_left : ℕ → List ClosedChannelTombstone → ℕ
bytes_left k [] = 0
bytes_left k (t ∷ ts) =
    let rest = bytes_left k ts in if t.local_id == k then t.remaining_byte_credit else rest

abbrev then_late : LateResult → (List ClosedChannelTombstone → LateResult) → LateResult
then_late not_closed k = not_closed
then_late exceeds k = exceeds
then_late (late us) k = k us

-- The tombstones after payloads of these sizes came late for a channel, if all of them were taken.
unfoldable pub discard_all : ℕ → List ℕ → List ClosedChannelTombstone → LateResult
discard_all k [] ts = late ts
discard_all k (n ∷ ns) ts = then_late (discard_late k n ts) (discard_all k ns)

unfoldable pub total : List ℕ → ℕ
total [] = 0
total (n ∷ ns) = n + total ns

-- What a late payload costs.
abbrev Costs : ℕ → ℕ → List ClosedChannelTombstone → List ClosedChannelTombstone → Type 0
Costs k n ts us =
    (suc (frames_left k us) ≡ frames_left k ts) × (n + bytes_left k us ≡ bytes_left k ts)

discard_late-Costs :
    (k n : ℕ) (ts us : List ClosedChannelTombstone)
    → discard_late k n ts ≡ late us
    → Costs k n ts us
unfolding discard_late frames_left bytes_left
discard_late-Costs k n [] us e = absurd (cc)
discard_late-Costs k n (t ∷ ts) us e = elim (Bool-cases (t.local_id == k)) [
  | inl here ↦
      spends here (Bool-cases (t.remaining_frame_credit == 0 || ltb t.remaining_byte_credit n))
  | inr there ↦ passes there (discard_late-Costs k n ts) (discard_late k n ts) refl (rw there at e)
]
  where
    spends :
        (t.local_id == k) ≡ true
        → ((t.remaining_frame_credit == 0 || ltb t.remaining_byte_credit n) ≡ true)
          ⊎ ((t.remaining_frame_credit == 0 || ltb t.remaining_byte_credit n) ≡ false)
        → Costs k n (t ∷ ts) us
    spends here (inl over) = let q : exceeds ≡ late us = rw (here, over) at e in absurd (cc)
    spends here (inr covered) =
        let q : late (spent t n ∷ ts) ≡ late us = rw (here, covered) at e in
        let same : us ≡ (spent t n ∷ ts) = cc in rw (same, here) (ground arith, ground arith)

    passes :
        (t.local_id == k) ≡ false
        → ((vs : List ClosedChannelTombstone) → discard_late k n ts ≡ late vs → Costs k n ts vs)
        → (r : LateResult) → discard_late k n ts ≡ r
        → or_later t r ≡ late us
        → Costs k n (t ∷ ts) us
    passes there rest not_closed h q = absurd (cc)
    passes there rest exceeds h q = absurd (cc)
    passes there rest (late vs) h q = let same : us ≡ (t ∷ vs) = cc in rw (same, there) (rest vs h)

-- The data that is taken for a channel after it was closed: each payload uses a frame of the credit that
-- was left, and all of them together no more bytes than were left.
pub discard_all-credit :
    (k : ℕ) (ns : List ℕ) (ts us : List ClosedChannelTombstone)
    → discard_all k ns ts ≡ late us
    → (length ns + frames_left k us ≡ frames_left k ts)
      × (total ns + bytes_left k us ≡ bytes_left k ts)
unfolding discard_all total
discard_all-credit k [] ts us e = let same : ts ≡ us = cc in rw same (omega arith, omega arith)
discard_all-credit k (n ∷ ns) ts us e = goes (discard_late k n ts) refl (discard_all-credit k ns) e
  where
    goes :
        (r : LateResult)
        → discard_late k n ts ≡ r
        → ((vs : List ClosedChannelTombstone) (ws : List ClosedChannelTombstone)
            → discard_all k ns vs ≡ late ws
            → (length ns + frames_left k ws ≡ frames_left k vs)
              × (total ns + bytes_left k ws ≡ bytes_left k vs))
        → then_late r (discard_all k ns) ≡ late us
        → (suc (length ns) + frames_left k us ≡ frames_left k ts)
          × ((n + total ns) + bytes_left k us ≡ bytes_left k ts)
    goes not_closed h rest q = absurd (cc)
    goes exceeds h rest q = absurd (cc)
    goes (late vs) h rest q =
        let (a, b) = discard_late-Costs k n ts vs h in
        let (c, d) = rest vs us q in (omega arith, omega arith)
