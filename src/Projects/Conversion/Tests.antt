-- ===== src/Projects/Conversion/Tests.antt =====
-- The theorems on conversions at a valid ledger.
use policy_project_managemen.Prelude.{◌≡◌, refl, none, some, [], ◌∷◌, ok}
use policy_project_managemen.Projects.Validity.{After, ValidAfter}
use policy_project_managemen.Projects.Samples.{owner, ledger, ledger-IsValid, moment}
use mathlib.Core.List.{Permᴰ}
use policy_project_managemen.Projects.Conversion.{ProjectCreateInput, convert_policy}
use policy_project_managemen.Projects.Conversion.Keeps.{convert_policy-IsValid}
use policy_project_managemen.Projects.Conversion.Replay.{convert_policy_idempotent}

abbrev request : ProjectCreateInput
request = record {
  name = some "Second";
  liaison_user_id = 2;
  member_user_ids = 2 ∷ 1 ∷ [];
  deadline_on = none;
}

convert_policy-IsValid_example :
    ValidAfter (convert_policy (λ r. r.name) moment (λ l. l) 8 request "key-2" owner ledger)
convert_policy-IsValid_example =
    convert_policy-IsValid moment owner (λ o v. v) (λ l. l) (λ l v. v) (λ r. r.name) 8 request
      "key-2" ledger ledger-IsValid

-- The same request, with the members the other way round.
abbrev repeated_request : ProjectCreateInput
repeated_request = record request { member_user_ids = 1 ∷ 2 ∷ [] }

convert_policy_idempotent_example :
    After
      (λ p' l'.
        convert_policy (λ r. r.name) moment (λ l. l) 8 repeated_request "key-2" owner l'
        ≡ ok (p', l'))
      (convert_policy (λ r. r.name) moment (λ l. l) 8 request "key-2" owner ledger)
convert_policy_idempotent_example =
    convert_policy_idempotent ledger 8 moment (λ l. l) owner refl (λ r. r.name) moment (λ l. l)
      request repeated_request "key-2"
      (record {
        name = refl;
        liaison_user_id = refl;
        deadline_on = refl;
        member_user_ids = Permᴰ.swap refl refl;
      })
