-- ===== src/Audit/Appended.antt =====
-- Linking an event to a log that `Verify` of internal/audit/audit.go accepts.
use changeguard.Prelude.{
  ℕ, suc, String, ◌≡◌, refl, ap, sym, ◌∙◌, subst, Bool, false, Option, none, some, List, [], ◌∷◌,
  ◌++◌, ◌==◌, eq_iff, if◌then◌else◌, arith, trim_space, lower, lower_twice, find_last, Bool-cases,
  Option-cases, inl, inr,
}
use changeguard.Model.{AuditEvent}
use changeguard.Audit.{Digest, normalize, canonical, digest, anchor, link}
use changeguard.Audit.Normal.{IsHex, normalize_twice}
use changeguard.Audit.Chain.{
  Seen, nothing_seen, saw, expected_prev, fault_of, verify_from, verify_events,
}

-- every event is in the form that `Normalize` gives it
abbrev pub AllNormal : List AuditEvent → Type 0
AllNormal [] = Unit
AllNormal (e ∷ events) = (normalize e ≡ e) × AllNormal events

-- the events are normalized and `Verify` finds no fault
pub record IsChain (h : Digest) (events : List AuditEvent) : Type 0 where
  pub normal : AllNormal events
  pub verified : verify_events h events ≡ none

-- the digests are texts in lower case, as hexadecimal is
pub record IsHexDigest (h : Digest) : Type 0 where
  pub hex : (e : AuditEvent) → IsHex (h e)
  pub filled : (e : AuditEvent) → (h e == "") ≡ false

abbrev saw_all : Seen → List AuditEvent → Seen
saw_all seen [] = seen
saw_all seen (e ∷ events) = saw_all (saw seen (normalize e)) events

abbrev pub in_org : String → AuditEvent → Bool
in_org org a = a.organization_id == org

abbrev or_last : Option AuditEvent → Option AuditEvent → Option AuditEvent
or_last none o = o
or_last (some e) o = some e

AllNormal-append :
    (xs : List AuditEvent) (y : AuditEvent)
    → AllNormal xs
    → normalize y ≡ y
    → AllNormal (xs ++ y ∷ [])
AllNormal-append [] y n h = (h, tt)
AllNormal-append (x ∷ xs) y (hx, n) h = (hx, AllNormal-append xs y n h)

same_text : (a b : String) → (a == b) ≡ (b == a)
same_text a b = elim (Bool-cases (a == b)) [
  | inl h ↦ h ∙ sym ((eq_iff b a).1 (sym ((eq_iff a b).0 h)))
  | inr h ↦ elim (Bool-cases (b == a)) [
    | inl g ↦ absurd (ground (arith, h, (eq_iff a b).1 (sym ((eq_iff b a).0 g))))
    | inr g ↦ h ∙ sym g
  ]
]

find_last-normal :
    (org : String) (xs : List AuditEvent) (p : AuditEvent)
    → AllNormal xs
    → find_last (in_org org) xs ≡ some p
    → normalize p ≡ p
unfolding find_last
find_last-normal org [] p n h = absurd (ground arith)
find_last-normal org (x ∷ xs) p (hx, n) h = elim (Option-cases (find_last (in_org org) xs)) [
  | inl later ↦ elim (Bool-cases (in_org org x)) [
    | inl here ↦ subst (λ z. normalize z ≡ z) (ground (arith, rw (later, here) at h)) hx
    | inr other ↦ absurd (ground (arith, rw (later, other) at h))
  ]
  | inr (q, later) ↦ find_last-normal org xs p n (later ∙ ground (arith, rw later at h))
]

last_seen :
    (org : String) (x : AuditEvent) (seen : Seen) (o : Option AuditEvent)
    → or_last o ((saw seen x).last org)
      ≡ or_last
          (elim o [ some y ↦ some y | none ↦ if in_org org x then some x else none ])
          (seen.last org)
last_seen org x seen (some y) = refl
last_seen org x seen none = elim (Bool-cases (in_org org x)) [
  | inl h ↦ rw (same_text org x.organization_id, h) refl
  | inr h ↦ rw (same_text org x.organization_id, h) refl
]

saw_all-last :
    (org : String) (xs : List AuditEvent) (seen : Seen)
    → AllNormal xs
    → (saw_all seen xs).last org ≡ or_last (find_last (in_org org) xs) (seen.last org)
unfolding find_last
saw_all-last org [] seen n = refl
saw_all-last org (x ∷ xs) seen (hx, n) =
    saw_all-last org xs (saw seen (normalize x)) n
    ∙ ap (λ z. or_last (find_last (in_org org) xs) ((saw seen z).last org)) hx
    ∙ last_seen org x seen (find_last (in_org org) xs)

verify_from-append :
    (h : Digest) (y : AuditEvent) (xs : List AuditEvent) (index : ℕ) (seen : Seen)
    → verify_from h index seen xs ≡ none
    → ((i : ℕ) → fault_of h i (saw_all seen xs) (normalize y) ≡ none)
    → verify_from h index seen (xs ++ y ∷ []) ≡ none
unfolding verify_from
verify_from-append h y [] index seen v f = rw (f index, verify_from) refl
verify_from-append h y (x ∷ xs) index seen v f =
    elim (Option-cases (fault_of h index seen (normalize x))) [
      | inl clean ↦
          rw (clean, verify_from)
            (verify_from-append h y xs (suc index) (saw seen (normalize x))
              (rw (clean, verify_from) at v) f)
      | inr (fault, found) ↦ absurd (ground (arith, rw (found, verify_from) at v))
    ]

or_none : (o : Option AuditEvent) → or_last o none ≡ o
or_none none = refl
or_none (some e) = refl

no_fault :
    (h : Digest) (index : ℕ) (seen : Seen) (y : AuditEvent)
    → (y.hash == "") ≡ false
    → y.prev_hash ≡ expected_prev h (seen.last y.organization_id)
    → y.hash ≡ digest h y
    → fault_of h index seen y ≡ none
unfolding fault_of
no_fault h index seen y filled prev own =
    let prev_same = (eq_iff y.prev_hash (expected_prev h (seen.last y.organization_id))).1 prev in
    let own_same = (eq_iff y.hash (digest h y)).1 own in
    rw (filled, fault_of) (rw prev_same (rw own_same refl))

module _ (h : Digest) (is_hex : IsHexDigest h) where
  -- the two ways to refer to an event agree on those that are normalized
  anchor-expected :
      (p : Option AuditEvent)
      → ((e : AuditEvent) → p ≡ some e → normalize e ≡ e)
      → anchor h p ≡ expected_prev h p
  unfolding anchor expected_prev normalize
  anchor-expected none n = refl
  anchor-expected (some e) n = elim (Bool-cases (e.hash == "")) [
    | inl b ↦ rw b refl
    | inr b ↦
        let hex : lower (trim_space e.hash) ≡ e.hash = ap (λ (z : AuditEvent). z.hash) (n e refl) in
        rw b (ap lower (sym hex) ∙ lower_twice (trim_space e.hash) ∙ hex)
  ]

  expected_prev-IsHex :
      (p : Option AuditEvent)
      → ((e : AuditEvent) → p ≡ some e → normalize e ≡ e)
      → IsHex (expected_prev h p)
  unfolding expected_prev normalize digest lower trim_space
  expected_prev-IsHex none n = refl
  expected_prev-IsHex (some e) n = elim (Bool-cases (e.hash == "")) [
    | inl b ↦ rw b (is_hex.hex (canonical e))
    | inr b ↦ rw b (ap (λ (z : AuditEvent). z.hash) (n e refl))
  ]

  module _ (e : AuditEvent) (events : List AuditEvent) (n : AllNormal events) where
    abbrev previous : Option AuditEvent
    previous = find_last (in_org e.organization_id) events

    previous_normal : (p : AuditEvent) → previous ≡ some p → normalize p ≡ p
    previous_normal p f = find_last-normal e.organization_id events p n f

    abbrev refers : String
    refers = anchor h previous

    refers-IsHex : IsHex refers
    refers-IsHex =
        subst (λ s. IsHex s) (sym (anchor-expected previous previous_normal))
          (expected_prev-IsHex previous previous_normal)

    abbrev unhashed : AuditEvent
    unhashed = record (normalize e) { hash = ""; prev_hash = refers }

    link-normal : normalize (link h e previous) ≡ link h e previous
    unfolding link digest
    link-normal =
        normalize_twice e refers (digest h unhashed) refers-IsHex (is_hex.hex (canonical unhashed))

    empty-IsHex : IsHex ""
    unfolding lower trim_space
    empty-IsHex = refl

    hash-own : (link h e previous).hash ≡ digest h (link h e previous)
    unfolding link digest canonical
    hash-own =
        let unhashed_normal = normalize_twice e refers "" refers-IsHex empty-IsHex in
        let own = link-normal in
        ap h (
          ap (λ (z : AuditEvent). record z { hash = "" }) unhashed_normal
          ∙ ap (λ (z : AuditEvent). record z { hash = "" }) (sym own))

    hash_filled : ((link h e previous).hash == "") ≡ false
    unfolding link digest
    hash_filled = is_hex.filled (canonical unhashed)

    refers-last :
        trim_space e.organization_id ≡ e.organization_id
        → (link h e previous).prev_hash
          ≡ expected_prev h ((saw_all nothing_seen events).last (link h e previous).organization_id)
    unfolding link normalize
    refers-last org =
        anchor-expected previous previous_normal
        ∙ ap (expected_prev h) (
            sym (
              ap (λ o. (saw_all nothing_seen events).last o) org
              ∙ saw_all-last e.organization_id events nothing_seen n
              ∙ or_none previous))

    link-clean :
        (index : ℕ)
        → trim_space e.organization_id ≡ e.organization_id
        → fault_of h index (saw_all nothing_seen events) (normalize (link h e previous)) ≡ none
    link-clean index org =
        ap (fault_of h index (saw_all nothing_seen events)) link-normal
        ∙ no_fault h index (saw_all nothing_seen events) (link h e previous) hash_filled
            (refers-last org) hash-own

  -- linking an event whose organization has no space around it keeps the chain
  pub link-IsChain :
      (e : AuditEvent) (events : List AuditEvent)
      → trim_space e.organization_id ≡ e.organization_id
      → IsChain h events
      → IsChain h (events ++ link h e (find_last (in_org e.organization_id) events) ∷ [])
  unfolding verify_events
  link-IsChain e events org c =
      let y = link h e (find_last (in_org e.organization_id) events) in
      record {
        normal = AllNormal-append events y c.normal (link-normal e events c.normal);
        verified =
            verify_from-append h y events 0 nothing_seen c.verified
              (λ i. link-clean e events c.normal i org);
      }
