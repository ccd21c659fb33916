-- ===== src/Audit/Normal.antt =====
-- Normalizing an event twice.
use changeguard.Prelude.{
  String, ◌≡◌, refl, ap, ◌∙◌, Bool, true, false, ◌==◌, trim_space, upper, lower, if◌then◌else◌,
  has_prefix_lower, Bool-cases, inl, inr, trim_space_twice, upper_trim_twice, lower_trim_twice,
  ◌||◌,
}
use changeguard.Model.{AuditEvent}
use changeguard.Audit.{normalize, trim_fields, fill_defaults, actor_type_of, or_default}

abbrev upper_trim : String → String
upper_trim s = upper (trim_space s)

-- a default that is already trimmed, for a field that is
trim-or_default :
    (s d : String)
    → trim_space s ≡ s
    → trim_space d ≡ d
    → trim_space (or_default s d) ≡ or_default s d
trim-or_default s d hs hd = elim (Bool-cases (s == "")) [ inl b ↦ rw b hd | inr b ↦ rw b hs ]

upper_trim-or_default :
    (s d : String)
    → upper_trim s ≡ s
    → upper_trim d ≡ d
    → upper_trim (or_default s d) ≡ or_default s d
upper_trim-or_default s d hs hd = elim (Bool-cases (s == "")) [ inl b ↦ rw b hd | inr b ↦ rw b hs ]

one_default : (d : String) → or_default d d ≡ d
one_default d = elim (Bool-cases (d == "")) [ inl b ↦ rw b refl | inr b ↦ rw b refl ]

or_default_twice : (s d : String) → or_default (or_default s d) d ≡ or_default s d
or_default_twice s d = elim (Bool-cases (s == "")) [
  | inl b ↦ rw b (one_default d)
  | inr b ↦ rw b (rw b refl)
]

success : upper_trim "SUCCESS" ≡ "SUCCESS"
unfolding upper trim_space
success = refl

change_word : upper_trim "CHANGE" ≡ "CHANGE"
unfolding upper trim_space
change_word = refl

-- a text that is its own trimmed lower case
abbrev pub IsHex : String → Type 0
IsHex s = lower (trim_space s) ≡ s

upper_field :
    (s d : String)
    → upper_trim d ≡ d
    → or_default (upper_trim (or_default (upper_trim s) d)) d ≡ or_default (upper_trim s) d
upper_field s d h =
    ap (λ z. or_default z d) (upper_trim-or_default (upper_trim s) d (upper_trim_twice s) h)
    ∙ or_default_twice (upper_trim s) d

actor_word :
    (ci system : Bool)
    → let w : String = if ci then "CI" else if system then "SYSTEM" else "USER" in upper_trim w ≡ w
unfolding upper trim_space
actor_word true b = refl
actor_word false true = refl
actor_word false false = refl

actor_type_of-upper : (id : String) → upper_trim (actor_type_of id) ≡ actor_type_of id
unfolding actor_type_of
actor_type_of-upper id =
    actor_word (has_prefix_lower id "ci:")
      (has_prefix_lower id "system" || has_prefix_lower id "integration")

actor_field :
    (s id : String)
    → or_default
        (upper_trim (or_default (upper_trim s) (actor_type_of (trim_space id))))
        (actor_type_of (trim_space (trim_space id)))
      ≡ or_default (upper_trim s) (actor_type_of (trim_space id))
actor_field s id =
    ap
      (λ z.
        or_default (upper_trim (or_default (upper_trim s) (actor_type_of (trim_space id))))
          (actor_type_of z))
      (trim_space_twice id)
    ∙ upper_field s (actor_type_of (trim_space id)) (actor_type_of-upper (trim_space id))

abbrev type_field : String → String → String
type_field change s = if change == "" then upper_trim s else or_default (upper_trim s) "CHANGE"

type_field_twice :
    (change s : String)
    → trim_space change ≡ change
    → type_field (trim_space change) (type_field change s) ≡ type_field change s
type_field_twice change s h = elim (Bool-cases (change == "")) [
  | inl b ↦ rw (h, b) (upper_trim_twice s)
  | inr b ↦ rw (h, b) (upper_field s "CHANGE" change_word)
]

abbrev id_field : String → String → String
id_field change s = if change == "" then trim_space s else or_default (trim_space s) change

id_field_twice :
    (change s : String)
    → trim_space change ≡ change
    → id_field (trim_space change) (id_field change s) ≡ id_field change s
id_field_twice change s h = elim (Bool-cases (change == "")) [
  | inl b ↦ rw (h, b) (trim_space_twice s)
  | inr b ↦
      rw (h, b)
        (ap (λ z. or_default z change)
            (trim-or_default (trim_space s) change (trim_space_twice s) h)
          ∙ or_default_twice (trim_space s) change)
]

-- an event that was normalized is normal under every link and hash that are
pub normalize_twice :
    (e : AuditEvent) (p q : String)
    → IsHex p
    → IsHex q
    → normalize (record (normalize e) { prev_hash = p; hash = q })
      ≡ record (normalize e) { prev_hash = p; hash = q }
unfolding normalize trim_fields fill_defaults
normalize_twice e p q hp hq = λ i. record {
  organization_id = trim_space_twice e.organization_id i;
  id = trim_space_twice e.id i;
  change_id = trim_space_twice e.change_id i;
  request_id = trim_space_twice e.request_id i;
  actor_id = trim_space_twice e.actor_id i;
  actor_name = trim_space_twice e.actor_name i;
  actor_type = actor_field e.actor_type e.actor_id i;
  auth_method = upper_trim_twice e.auth_method i;
  action = upper_trim_twice e.action i;
  resource_type =
      type_field_twice (trim_space e.change_id) e.resource_type (trim_space_twice e.change_id) i;
  resource_id =
      id_field_twice (trim_space e.change_id) e.resource_id (trim_space_twice e.change_id) i;
  resource_version_before = e.resource_version_before;
  resource_version_after = e.resource_version_after;
  request_digest = lower_trim_twice e.request_digest i;
  result = upper_field e.result "SUCCESS" success i;
  reason_code = upper_trim_twice e.reason_code i;
  related_event_id = trim_space_twice e.related_event_id i;
  attempt_id = trim_space_twice e.attempt_id i;
  passport_id = trim_space_twice e.passport_id i;
  detail = trim_space_twice e.detail i;
  created_at = e.created_at;
  prev_hash = hp i;
  hash = hq i;
}
