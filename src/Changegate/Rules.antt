-- ===== src/Changegate/Rules.antt =====
-- internal/changegate/integrity.go, `RuleSetVersion`: the version of an organization's rule set is
-- the hash of the sorted descriptions of the enabled policies.
pub mod Order
use Prim.Native.String.{String, ◌++◌, char_at, compare}
use text.Mathlib.Text.{is_lt}
use changeguard.Prelude.{
  ℕ, zero, suc, ◌/◌, ◌%◌, ◌≡◌, refl, Bool, true, false, List, [], ◌∷◌, map, ltb, if◌then◌else◌,
  filter,
}
use changeguard.Model.{RiskPolicy}
use changeguard.Crypto.{Crypto}

abbrev digit : ℕ → String
digit d = String.◌∷◌ (char_at "0123456789" d) String.[]

-- `%d`; a number below 10 ^ fuel is printed in full
decimal_from : ℕ → ℕ → String → String
decimal_from zero n out = out
decimal_from (suc f) n out =
    let rest = decimal_from f (n / 10) (digit (n % 10) ++ out) in
    if ltb n 10 then digit n ++ out else rest

unfoldable pub decimal : ℕ → String
unfolding decimal_from
decimal n = decimal_from (suc n) n ""

abbrev pub show_bool : Bool → String
show_bool true = "true"
show_bool false = "false"

-- `strings.Join`
unfoldable pub join : String → List String → String
join sep [] = ""
join sep (s ∷ []) = s
join sep (s ∷ t ∷ r) = s ++ sep ++ join sep (t ∷ r)

unfoldable pub describe : RiskPolicy → String
unfolding decimal join
describe p =
    p.code
    ++ "|"
    ++ decimal p.version
    ++ "|"
    ++ show_bool p.blocking
    ++ "|"
    ++ p.pattern
    ++ "|"
    ++ join "," p.environments
    ++ "|"
    ++ join "," p.change_types
    ++ "|"
    ++ join "," p.artifact_kinds

-- `sort.Strings`
unfoldable pub insert_sorted : String → List String → List String
insert_sorted s [] = s ∷ []
insert_sorted s (t ∷ r) =
    let rest = insert_sorted s r in if is_lt (compare t s) then t ∷ rest else s ∷ t ∷ r

unfoldable pub sort_strings : List String → List String
unfolding insert_sorted
sort_strings [] = []
sort_strings (s ∷ r) = insert_sorted s (sort_strings r)

unfoldable pub rule_lines : List RiskPolicy → List String
unfolding filter describe
rule_lines policies = map describe (filter (λ (p : RiskPolicy). p.enabled) policies)

unfoldable pub rule_set_version : Crypto → List RiskPolicy → String
unfolding rule_lines sort_strings join
rule_set_version k policies = "sha256:" ++ k.sha256 (join "\n" (sort_strings (rule_lines policies)))

prints : decimal 1204 ≡ "1204"
unfolding decimal
prints = refl

sorts : sort_strings ("b" ∷ "a" ∷ "ab" ∷ []) ≡ "a" ∷ "ab" ∷ "b" ∷ []
unfolding sort_strings
sorts = refl
