-- ===== src/Harness/Plugs/LocalGuards/Decisions.antt =====
-- The user's decisions: stored by `resolve`, and used up by the next request of that effect.
use hera_v.Shared.{
  String, ◌≡◌, ◌≢◌, refl, none, some, List, arith, eq_refl, eq_iff, if◌then◌else◌, ap,
}
use hera_v.Shared.Dict.{lookup, insert, erase, lookup-insert, lookup-erase, str_eq}
use hera_v.Harness.Gate.{Decision}
use hera_v.Harness.Plugs.Paths.{Host}
use hera_v.Harness.Plugs.LocalGuards.{
  LocalGuardsConfig, Request, answer_fresh, decided, request, resolve,
}

module _ (host : Host) (config : LocalGuardsConfig) where
  request-decided :
      (r : Request) {d : Decision} (stored : List (String × Decision))
      → lookup r.effect_id stored ≡ some d
      → request host config r stored ≡ (decided host config d, erase r.effect_id stored)
  unfolding request
  request-decided r stored h = rw h

  request-undecided :
      (r : Request) (stored : List (String × Decision))
      → lookup r.effect_id stored ≡ none
      → request host config r stored ≡ (answer_fresh host config r, stored)
  unfolding request
  request-undecided r stored h = rw h

  pub request-resolve :
      (r : Request) (d : Decision) (stored : List (String × Decision))
      → request host config r (resolve host config r.effect_id (some d) stored)
        ≡ (decided host config d, erase r.effect_id (insert r.effect_id d stored))
  unfolding resolve
  request-resolve r d stored =
      request-decided r (insert r.effect_id d stored) (simp (lookup-insert, eq_refl))

  used_up :
      (e k : String) (d : Decision) (stored : List (String × Decision))
      → lookup k (erase e (insert e d stored)) ≡ (if str_eq e k then none else lookup k stored)
  used_up e k d stored =
      ground (arith, lookup-erase e k (insert e d stored), lookup-insert e k d stored)

-- The first request after a decision of the user is answered by that decision, whatever the rules
-- say; the next one is answered by the rules again; the decisions on other effects stay.
pub decision_once :
    (host : Host) (config : LocalGuardsConfig) (r : Request) (d : Decision)
    (stored : List (String × Decision))
    → let (first, left) = request host config r (resolve host config r.effect_id (some d) stored) in
      (first ≡ decided host config d)
      × ((request host config r left).0 ≡ answer_fresh host config r)
      × ((e : String) → e ≢ r.effect_id → lookup e left ≡ lookup e stored)
decision_once host config r d stored = rw (request-resolve host config r d stored) (
  refl,
  ap (λ x. x.0)
      (request-undecided host config r _
        (rw (used_up host config r.effect_id r.effect_id d stored) (rw eq_refl))),
  λ e other. ground (arith, used_up host config r.effect_id e d stored, eq_iff r.effect_id e),
)
