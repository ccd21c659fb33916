-- ===== src/Store/Listing.antt =====
-- The lists that internal/store/outbox.go, passport.go and organization.go give, in their order.
use changeguard.Prelude.{
  ℕ, zero, suc, String, Bool, false, not, ◌&&◌, ◌||◌, List, [], ◌∷◌, ◌==◌, ltb, if◌then◌else◌, map,
  filter, sort_by, length,
}
use changeguard.Model.Status.{Time, OutboxStatus, is_outbox}
use changeguard.Model.{OutboxEvent, RiskPolicy, Passport, StoredPassport}
use changeguard.Store.Base.{State}
use changeguard.Store.Passport.{public_passport}

unfoldable pub take : {A : Type 0} → ℕ → List A → List A
take zero xs = []
take (suc n) [] = []
take (suc n) (x ∷ xs) = x ∷ take n xs

abbrev pub listed_event : String → Bool → OutboxEvent → Bool
listed_event org include_completed e =
    e.organization_id == org
    && (include_completed || not (is_outbox e.status OutboxStatus.completed))

abbrev pub later_event : OutboxEvent → OutboxEvent → Bool
later_event a b = ltb b.updated_at a.updated_at

-- `OutboxByOrganization`
unfoldable pub outbox_by_organization : String → Bool → ℕ → State → List OutboxEvent
unfolding filter sort_by take
outbox_by_organization org include_completed limit s =
    let items = sort_by later_event (filter (listed_event org include_completed) s.outbox) in
    if ltb 0 limit && ltb limit (length items) then take limit items else items

abbrev listed_passport : String → String → StoredPassport → Bool
listed_passport org change_id p =
    not (not (p.organization_id == org) || not (p.change_id == change_id))

abbrev later_passport : Passport → Passport → Bool
later_passport a b = ltb b.issued_at a.issued_at

-- `PassportsByChange`, with one reading of the clock
unfoldable pub passports_by_change : Time → String → String → State → List Passport
unfolding filter sort_by public_passport
passports_by_change now org change_id s =
    sort_by later_passport
      (map (λ p. public_passport now p false) (filter (listed_passport org change_id) s.passports))

abbrev iff : Bool → Bool → Bool
iff a b = if a then b else not b

abbrev pub first_policy : RiskPolicy → RiskPolicy → Bool
first_policy a b =
    if not (iff a.builtin b.builtin)
    then a.builtin
    else if not (iff a.enabled b.enabled)
    then a.enabled
    else ltb b.updated_at a.updated_at

-- `PoliciesByOrganization`
unfoldable pub policies_by_organization : String → State → List RiskPolicy
unfolding filter sort_by
policies_by_organization org s =
    sort_by first_policy (filter (λ (p : RiskPolicy). p.organization_id == org) s.policies)
