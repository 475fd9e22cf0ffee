-- ===== src/Examples/Catalogue.antt =====
-- The theorems on the catalogue of plans and on tokens.
use restorelab.Prelude.{◌≡◌, refl, false, none, List, [], ◌∷◌}
use restorelab.Store.Table.{any_where}
use restorelab.Store.Access.{Credentials, revoke_token, token_by_hash, session_by_hash}
use restorelab.Store.Access.Revoked.{
  AccessWrite, touching, sweeping, write_accesses, opened_token, opened_session,
  revoke_token-lasting,
}
use restorelab.Store.Plans.{Plan, PlanRow, Reads, PlanWrite, creating, inserted_plan, update_plan}

abbrev a_stored : Plan
a_stored = record {
  id = "web";
  name = "web";
  description = "";
  workload_id = "100";
  provider_id = "";
  yaml = "a";
  version = 0;
  created_at = 1;
  updated_at = 1;
}

abbrev a_catalogue : List PlanRow
a_catalogue = inserted_plan (record a_stored { id = "plan-1" }) ∷ []

-- Another plan is created between two writers of the first one.
abbrev a_creation : List PlanWrite
a_creation = creating (record a_stored { id = "plan-2"; name = "mail" }) ∷ []

abbrev reads : Reads
reads = record { on_name = a_catalogue; on_id = a_catalogue; on_prefix = a_catalogue }

abbrev first_update : List PlanRow
first_update = (update_plan (λ i r. false) a_stored 1 reads a_catalogue).1

-- A token with a session that stands for it.
abbrev some_credentials : Credentials
some_credentials = record {
  tokens =
      record {
        id = "t-1";
        name = "ci";
        hash = "a1";
        created_at = 1;
        last_used_at = none;
        revoked_at = none;
        scopes = "read";
      }
      ∷ [];
  sessions =
      record {
        id = "s-1";
        hash = "b2";
        token_id = "t-1";
        created_at = 2;
        expires_at = 90;
        user_agent = none;
      }
      ∷ [];
}

abbrev an_access : List AccessWrite
an_access = touching "t-1" 11 ∷ sweeping 12 ∷ []

revoke_token-lasting_example :
    (opened_token "t-1" (
        token_by_hash "b2"
          (write_accesses (λ s. s) an_access (revoke_token "ci" 10 some_credentials).1))
      ≡ false)
    × (opened_session "t-1" (
          session_by_hash "b2" 20
            (write_accesses (λ s. s) an_access (revoke_token "ci" 10 some_credentials).1))
        ≡ false)
unfolding any_where
revoke_token-lasting_example =
    revoke_token-lasting (λ s. s) "t-1" "ci" 10 some_credentials an_access "b2" 20 ((λ _. refl), tt)
      refl
