-- ===== src/Service/Issue/Rules.antt =====
-- The rules that internal/service/passport.go and internal/store/passport.go compare, each with its own
-- list of the organization's policies.
use changeguard.Prelude.{String, ◌≡◌, filter, ◌==◌, sort_by-Perm}
use changeguard.Model.{RiskPolicy}
use changeguard.Crypto.{Crypto}
use changeguard.Changegate.Rules.{rule_set_version}
use changeguard.Changegate.Rules.Order.{rule_set_version-Perm}
use changeguard.Store.Base.{State}
use changeguard.Store.UsePassport.{organization_policies}
use changeguard.Store.Listing.{first_policy, policies_by_organization}
use changeguard.Service.Issue.{current_rules}

-- the service, which sorts the policies, finds the version that the store finds, which does not
pub current_rules-eq :
    (k : Crypto) (org : String) (s : State)
    → current_rules k org s ≡ rule_set_version k (organization_policies org s)
unfolding current_rules policies_by_organization organization_policies
current_rules-eq k org s =
    let own = filter (λ (p : RiskPolicy). p.organization_id == org) s.policies in
    rule_set_version-Perm k (policies_by_organization org s) own (sort_by-Perm first_policy own)
