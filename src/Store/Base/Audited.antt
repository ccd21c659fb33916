-- ===== src/Store/Base/Audited.antt =====
-- The audit log of internal/store/store.go as a chain of events.
use changeguard.Prelude.{
  ◌≡◌, refl, ap, sym, ◌∙◌, List, [], ◌∷◌, ◌==◌, if◌then◌else◌, nat_eq, length, trim_space, find,
  Bool-cases, Option-cases, inl, inr, ◌&&◌,
}
use changeguard.Model.{ChangeRequest, AuditEvent}
use changeguard.Crypto.{Crypto}
use changeguard.Audit.Appended.{IsChain, IsHexDigest, link-IsChain}
use changeguard.Store.Base.{State, Call, enrich_audit, append_audit, append_all, append_audits}

-- no organization's name has spaces around it
abbrev pub AllTrimmed : List AuditEvent → Type 0
AllTrimmed [] = Unit
AllTrimmed (e ∷ events) = (trim_space e.organization_id ≡ e.organization_id) × AllTrimmed events

enrich_audit-organization :
    (changes : List ChangeRequest) (e : AuditEvent)
    → (enrich_audit changes e).organization_id ≡ e.organization_id
unfolding enrich_audit
enrich_audit-organization changes e = elim (Bool-cases (e.change_id == "")) [
  | inl h ↦ rw h refl
  | inr h ↦
      elim (Option-cases (
        find (λ (c : ChangeRequest). c.id == e.change_id && c.organization_id == e.organization_id)
          changes)) [ inl f ↦ rw (h, f) refl | inr (x, f) ↦ rw (h, f) refl ]
]

module _ (k : Crypto) (is_hex : IsHexDigest k.digest) (c : Call) where
  append_audit-IsChain :
      (changes : List ChangeRequest) (e : AuditEvent) (audits : List AuditEvent)
      → trim_space e.organization_id ≡ e.organization_id
      → IsChain k.digest audits
      → IsChain k.digest (append_audit k c changes e audits)
  unfolding append_audit
  append_audit-IsChain changes e audits org chain =
      let named : AuditEvent = record e {
        id = if e.id == "" then c.new_id "audit_" (length audits) else e.id;
        created_at = if nat_eq e.created_at 0 then c.now else e.created_at;
      } in
      let same = enrich_audit-organization changes named in
      link-IsChain k.digest is_hex (enrich_audit changes named) audits
        (ap trim_space same ∙ org ∙ sym same) chain

  append_all-IsChain :
      (changes : List ChangeRequest) (es audits : List AuditEvent)
      → AllTrimmed es
      → IsChain k.digest audits
      → IsChain k.digest (append_all k c changes es audits)
  unfolding append_all
  append_all-IsChain changes [] audits t chain = chain
  append_all-IsChain changes (e ∷ es) audits (org, t) chain =
      append_all-IsChain changes es (append_audit k c changes e audits) t
        (append_audit-IsChain changes e audits org chain)

  -- Appending audit events keeps the log a chain of normalized events in which `Verify` finds no
  -- fault, if no event's organization has spaces around it and digests are filled texts in lower
  -- case without spaces around them.
  pub append_audits-IsChain :
      (es : List AuditEvent) (s : State)
      → AllTrimmed es
      → IsChain k.digest s.audits
      → IsChain k.digest (append_audits k c es s).audits
  unfolding append_audits
  append_audits-IsChain es s t chain = append_all-IsChain s.changes es s.audits t chain
