-- ===== src/Store/Idempotency/Digested.antt =====
-- The digests that the records of internal/store/idempotency.go carry.
use changeguard.Prelude.{
  ◌≡◌, subst, Bool, some, List, [], ◌∷◌, ◌++◌, find, replace_first, Bool-cases, inl, inr, arith,
}
use changeguard.Model.{IdempotencyRecord}
use changeguard.Crypto.{Crypto}
use changeguard.Store.Base.{State}
use changeguard.Store.Idempotency.Unique.{Part, end, left_out, kept}
use changeguard.Store.Idempotency.Changes.{HasDigest, Changed, same, added, rewritten, shrunk}
use changeguard.Store.Idempotency.Runs.{Run, Run-preserves}

-- every record that has succeeded carries the digest of its answer
abbrev pub Digested : Crypto → List IdempotencyRecord → Type 0
Digested k [] = Unit
Digested k (item ∷ items) = HasDigest k item × Digested k items

pub find-Digested :
    (k : Crypto) (p : IdempotencyRecord → Bool) (items : List IdempotencyRecord)
    (item : IdempotencyRecord)
    → Digested k items
    → find p items ≡ some item
    → HasDigest k item
unfolding find
find-Digested k p [] item d f = absurd (ground arith)
find-Digested k p (x ∷ xs) item (dx, ds) f = elim (Bool-cases (p x)) [
  | inl h ↦
      let first : some x ≡ some item = rw h at f in
      let here : x ≡ item = ground arith in subst (HasDigest k) here dx
  | inr h ↦ find-Digested k p xs item ds (rw h at f)
]

Digested-append :
    (k : Crypto) (xs : List IdempotencyRecord) (v : IdempotencyRecord)
    → HasDigest k v
    → Digested k xs
    → Digested k (xs ++ v ∷ [])
Digested-append k [] v h d = (h, tt)
Digested-append k (x ∷ xs) v h (dx, ds) = (dx, Digested-append k xs v h ds)

Digested-replace :
    (k : Crypto) (p : IdempotencyRecord → Bool) (xs : List IdempotencyRecord)
    (v : IdempotencyRecord)
    → HasDigest k v
    → Digested k xs
    → Digested k (replace_first p v xs)
unfolding replace_first
Digested-replace k p [] v h d = tt
Digested-replace k p (x ∷ xs) v h (dx, ds) = elim (Bool-cases (p x)) [
  | inl g ↦ rw g (h, ds)
  | inr g ↦ rw g (dx, Digested-replace k p xs v h ds)
]

Digested-Part :
    (k : Crypto) {ys xs : List IdempotencyRecord} → Part ys xs → Digested k xs → Digested k ys
Digested-Part k end d = tt
Digested-Part k (left_out part) (dx, ds) = Digested-Part k part ds
Digested-Part k (kept part) (dx, ds) = (dx, Digested-Part k part ds)

Changed-Digested :
    (k : Crypto) (xs ys : List IdempotencyRecord) → Changed k xs ys → Digested k xs → Digested k ys
Changed-Digested k xs ys same d = d
Changed-Digested k xs ys (added v free p) d =
    Digested-append k xs v (λ q. absurd (ground (arith, p, q))) d
Changed-Digested k xs ys (rewritten p item v f n e e' h i) d = Digested-replace k p xs v h d
Changed-Digested k xs ys (shrunk part) d = Digested-Part k part d

-- In every state that calls on the idempotency records lead to from one in which each record that has
-- succeeded carries the digest of its answer, its reference and its status, each again does, failing
-- calls included, if a failed cleanup restores the last saved state.
pub Run-Digested :
    {k : Crypto} {s t : State}
    → Run k s t
    → Digested k s.idempotency_records
    → Digested k t.idempotency_records
Run-Digested {k = k} = Run-preserves (Digested k) (Changed-Digested k)
