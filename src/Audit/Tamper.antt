-- ===== src/Audit/Tamper.antt =====
-- Two logs that `Verify` of internal/audit/audit.go accepts.
use changeguard.Prelude.{
  ℕ, suc, String, ◌≡◌, refl, ap, sym, ◌∙◌, subst, false, Option, none, some, List, [], ◌∷◌, ◌==◌,
  eq_iff, arith, length, Bool-cases, Option-cases, inl, inr,
}
use changeguard.Model.{AuditEvent}
use changeguard.Audit.{Digest, normalize, canonical, digest}
use changeguard.Audit.Chain.{
  Seen, nothing_seen, saw, expected_prev, fault_of, verify_from, verify_events,
}

-- normalized events of one organization that all have a hash
abbrev pub IsLog : String → List AuditEvent → Type 0
IsLog org [] = Unit
IsLog org (e ∷ events) =
    (normalize e ≡ e) × (e.organization_id ≡ org) × ((e.hash == "") ≡ false) × IsLog org events

abbrev NoneLike : Digest → AuditEvent → List AuditEvent → Type 0
NoneLike h a [] = Unit
NoneLike h a (b ∷ events) =
    (digest h a ≡ digest h b → canonical a ≡ canonical b) × NoneLike h a events

-- no event of the first list has the digest of another payload in the second
abbrev pub CollisionFree : Digest → List AuditEvent → List AuditEvent → Type 0
CollisionFree h [] ys = Unit
CollisionFree h (a ∷ xs) ys = NoneLike h a ys × CollisionFree h xs ys

-- the hash that the next event refers to
abbrev pub last_hash : Digest → Option AuditEvent → List AuditEvent → String
last_hash h p [] = expected_prev h p
last_hash h p (e ∷ events) = last_hash h (some e) events

abbrev Linked : Digest → Option AuditEvent → List AuditEvent → Type 0
Linked h p [] = Unit
Linked h p (e ∷ events) =
    (e.prev_hash ≡ expected_prev h p) × (e.hash ≡ digest h e) × Linked h (some e) events

no_fault-links :
    (h : Digest) (i : ℕ) (seen : Seen) (e : AuditEvent)
    → (e.hash == "") ≡ false
    → fault_of h i seen e ≡ none
    → (e.prev_hash ≡ expected_prev h (seen.last e.organization_id)) × (e.hash ≡ digest h e)
unfolding fault_of
no_fault-links h i seen e filled f =
    let f₁ = rw (filled, fault_of) at f in
    elim (Bool-cases (e.prev_hash == expected_prev h (seen.last e.organization_id))) [
      | inr bad ↦ absurd (ground (arith, rw bad at f₁))
      | inl prev ↦
          let f₂ = rw prev at f₁ in
          elim (Bool-cases (e.hash == digest h e)) [
            | inr bad ↦ absurd (ground (arith, rw bad at f₂))
            | inl own ↦ (
              (eq_iff e.prev_hash (expected_prev h (seen.last e.organization_id))).0 prev,
              (eq_iff e.hash (digest h e)).0 own,
            )
          ]
    ]

saw-last :
    (org : String) (seen : Seen) (x : AuditEvent)
    → x.organization_id ≡ org
    → normalize x ≡ x
    → (saw seen (normalize x)).last org ≡ some x
saw-last org seen x own normal =
    ap (λ z. (saw seen z).last org) normal ∙ rw ((eq_iff org x.organization_id).1 (sym own)) refl

verify_from-Linked :
    (h : Digest) (org : String) (xs : List AuditEvent) (i : ℕ) (seen : Seen)
    → IsLog org xs
    → verify_from h i seen xs ≡ none
    → Linked h (seen.last org) xs
unfolding verify_from
verify_from-Linked h org [] i seen l v = tt
verify_from-Linked h org (x ∷ xs) i seen (normal, own, filled, l) v =
    elim (Option-cases (fault_of h i seen (normalize x))) [
      | inr (fault, found) ↦ absurd (ground (arith, rw (found, verify_from) at v))
      | inl clean ↦
          let (prev, hash) =
            no_fault-links h i seen x filled
              (subst (λ z. fault_of h i seen z ≡ none) normal clean) in
          let rest =
            verify_from-Linked h org xs (suc i) (saw seen (normalize x)) l
              (rw (clean, verify_from) at v) in
          (
            subst (λ o. x.prev_hash ≡ expected_prev h (seen.last o)) own prev,
            hash,
            subst (λ p. Linked h p xs) (saw-last org seen x own normal) rest,
          )
    ]

-- a normalized event is its payload and its hash
rebuilt :
    (a b : AuditEvent)
    → normalize a ≡ a
    → normalize b ≡ b
    → canonical a ≡ canonical b
    → a.hash ≡ b.hash
    → a ≡ b
unfolding canonical
rebuilt a b na nb c h =
    let same : record a { hash = "" } ≡ record b { hash = "" } =
      sym (ap (λ (z : AuditEvent). record z { hash = "" }) na)
      ∙ c
      ∙ ap (λ (z : AuditEvent). record z { hash = "" }) nb in
    λ i. record (same i) { hash = h i }

free-pair :
    (h : Digest) (a : AuditEvent) (x : AuditEvent) (xs ys : List AuditEvent)
    → CollisionFree h (x ∷ xs) (a ∷ ys)
    → CollisionFree h xs ys
free-pair h a x [] ys f = tt
free-pair h a x (z ∷ xs) ys (fx, ((_, fz), f)) = (fz, free-pair h a x xs ys (fx, f))

Linked-same :
    (h : Digest) (org : String) (xs ys : List AuditEvent) (p q : Option AuditEvent)
    → IsLog org xs
    → IsLog org ys
    → Linked h p xs
    → Linked h q ys
    → CollisionFree h xs ys
    → length xs ≡ length ys
    → last_hash h p xs ≡ last_hash h q ys
    → (xs ≡ ys) × (expected_prev h p ≡ expected_prev h q)
unfolding expected_prev
Linked-same h org [] [] p q lx ly kx ky f n e = (refl, e)
Linked-same h org [] (y ∷ ys) p q lx ly kx ky f n e = absurd (ground arith)
Linked-same h org (x ∷ xs) [] p q lx ly kx ky f n e = absurd (ground arith)
Linked-same h org (x ∷ xs) (y ∷ ys) p q (nx, _, fx, lx) (ny, _, fy, ly) (px, hx, kx) (py, hy, ky) f
      n e =
    let (rest, last) =
      Linked-same h org xs ys (some x) (some y) lx ly kx ky (free-pair h y x xs ys f) (ground arith)
        e in
    let hash : x.hash ≡ y.hash = rw (fx, fy) at last in
    let payload : canonical x ≡ canonical y = f.0.0 (sym hx ∙ hash ∙ hy) in
    let same = rebuilt x y nx ny payload hash in
    ((λ i. same i ∷ rest i), sym px ∙ ap (λ (z : AuditEvent). z.prev_hash) same ∙ py)

-- Two logs of one organization with the same number of events, normalized and hashed, in which
-- `Verify` finds no fault are the same if their last hashes are, unless a payload of one has the
-- digest of another payload in the other.
pub verify_events-same :
    (h : Digest) (org : String) (xs ys : List AuditEvent)
    → IsLog org xs
    → IsLog org ys
    → verify_events h xs ≡ none
    → verify_events h ys ≡ none
    → CollisionFree h xs ys
    → length xs ≡ length ys
    → last_hash h none xs ≡ last_hash h none ys
    → xs ≡ ys
unfolding verify_events
verify_events-same h org xs ys lx ly vx vy f n e =
    (Linked-same h org xs ys none none lx ly (verify_from-Linked h org xs 0 nothing_seen lx vx)
      (verify_from-Linked h org ys 0 nothing_seen ly vy) f n e).0
