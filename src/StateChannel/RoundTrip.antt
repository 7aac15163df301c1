-- ===== src/StateChannel/RoundTrip.antt =====
-- A channel written as JSON and read back.
use counterfactual.Prelude.{◌≡◌, refl, [], ◌∷◌, map, arith, Option-cases, inl, inr}
use counterfactual.Errors.{ok}
use counterfactual.External.{Ethers}
use counterfactual.Dict.{Dict, IsDict}
use counterfactual.Dict.Build.{of_entries-IsDict}
use counterfactual.AppInstance.{AppInstance}
use counterfactual.AppInstance.Laws.{from_json-to_json}
use counterfactual.StateChannel.{StateChannel, construct}
use counterfactual.StateChannel.Json.{to_json, from_json, apps_to_json, apps_from_json}
use counterfactual.StateChannel.Holding.{HasXpubs}

-- No map of the channel has a key twice, and the constructor accepts its keys.
pub record IsStorable {V : Type 0} (sc : StateChannel V) : Type 0 where
  pub proposals : IsDict sc.proposed_app_instances
  pub apps : IsDict sc.app_instances
  pub virtual_agreements : IsDict sc.agreements
  pub xpubs : HasXpubs sc

map_apps :
    {V : Type 0} (e : Ethers) (d : Dict (AppInstance V)) → apps_from_json (apps_to_json e d) ≡ d
map_apps e [] = refl
map_apps e ((k, a) ∷ d) = cc (map_apps e d, from_json-to_json e a)

map_entries {ℓ} : {A : Type ℓ} (d : Dict A) → map (λ p. (p.0, p.1)) d ≡ d
map_entries [] = refl
map_entries (x ∷ d) = cc (map_entries d)

-- A channel in whose maps no key stands twice, and whose keys are extended public keys, is read back
-- from its JSON form as it was.
pub from_json-to_json_channel :
    {V : Type 0} (e : Ethers) (sc : StateChannel V)
    → IsStorable sc
    → from_json (to_json e sc) ≡ ok sc
unfolding from_json to_json construct
from_json-to_json_channel e sc h =
    rw
      (
        map_apps e sc.app_instances,
        map_entries sc.proposed_app_instances,
        of_entries-IsDict sc.app_instances h.apps,
        of_entries-IsDict sc.proposed_app_instances h.proposals,
        of_entries-IsDict sc.agreements h.virtual_agreements,
        h.xpubs,
      )
      (elim (Option-cases sc.free_balance_app_instance) [
        | inl missing ↦ ground (arith, missing)
        | inr (app, there) ↦ ground (arith, there, from_json-to_json e app)
      ])
