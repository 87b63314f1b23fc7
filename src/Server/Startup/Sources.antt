-- ===== src/Server/Startup/Sources.antt =====
-- Where the server's credentials come from.
use Prim.Native.String.{String, ◌++◌}
use text.Mathlib.Text.{◌==◌ as str_eq}
use distributed_game_of_life.Prelude.{
  ◌≡◌, ◌⊎◌, refl, sym, ◌∙◌, true, false, Option-cases, inl, inr, if◌then◌else◌, Option, some,
}
use distributed_game_of_life.Server.Startup.Secrets.{IsSecret}
use distributed_game_of_life.Server.Startup.{
  Surroundings, Failure, Credentials, Outcome, fatal, went_on, ◌>>=◌, need, latest_version,
  read_credentials, cloud_credentials, credentials, connect,
}

bind_same :
    {A B : Type 0} (m : Outcome A) {f g : A → Outcome B}
    → ((x : A) → f x ≡ g x)
    → (m >>= f) ≡ (m >>= g)
bind_same (went_on x) h = h x
bind_same (fatal f) h = refl

-- The same answers of the Secret Manager to the two requests.
read_credentials-same :
    (a b : Surroundings) (project suffix : String)
    → a.access_secret_version (latest_version project ("REDIS_ADDR" ++ suffix))
      ≡ b.access_secret_version (latest_version project ("REDIS_ADDR" ++ suffix))
    → a.access_secret_version (latest_version project ("REDIS_PASSWORD" ++ suffix))
      ≡ b.access_secret_version (latest_version project ("REDIS_PASSWORD" ++ suffix))
    → read_credentials a project suffix ≡ read_credentials b project suffix
unfolding read_credentials
read_credentials-same a b project suffix addr pw = rw (addr, pw) refl

-- The same answers of Redis.
connect-credentials :
    (a b : Surroundings)
    → credentials a ≡ credentials b
    → ((addr pw : String) → a.ping addr pw ≡ b.ping addr pw)
    → connect a ≡ connect b
unfolding connect
connect-credentials a b same pings =
    rw same (bind_same (credentials b) (λ c. rw (pings c.redis_addr c.redis_password) refl))

-- On the Google cloud with ENVIRONMENT=staging the start of the server depends only on the project, on
-- whether there is a client of the Secret Manager, on the secrets REDIS_ADDR_STAGING and
-- REDIS_PASSWORD_STAGING of the project, and on Redis' answer to a ping: in two surroundings that agree on
-- these, with whatever other secrets and other variables, main goes on with the same credentials, or ends
-- with the same failure.
pub connect-staging :
    (a b : Surroundings)
    → a.on_gce ≡ true
    → b.on_gce ≡ true
    → a.getenv "ENVIRONMENT" ≡ "staging"
    → b.getenv "ENVIRONMENT" ≡ "staging"
    → a.project_id ≡ b.project_id
    → a.has_client ≡ b.has_client
    → ((project : String)
        → a.project_id ≡ some project
        → (a.access_secret_version (latest_version project "REDIS_ADDR_STAGING")
            ≡ b.access_secret_version (latest_version project "REDIS_ADDR_STAGING"))
          × (a.access_secret_version (latest_version project "REDIS_PASSWORD_STAGING")
              ≡ b.access_secret_version (latest_version project "REDIS_PASSWORD_STAGING")))
    → ((addr pw : String) → a.ping addr pw ≡ b.ping addr pw)
    → connect a ≡ connect b
unfolding credentials cloud_credentials
connect-staging a b cloud_a cloud_b env_a env_b project client secrets pings =
    connect-credentials a b
      (elim (Option-cases a.project_id) [
        | inl unknown ↦ rw (cloud_a, cloud_b, unknown, sym project ∙ unknown) refl
        | inr (p, known) ↦
            let same =
              read_credentials-same a b p "_STAGING" (secrets p known).0 (secrets p known).1 in
            rw (cloud_a, cloud_b, env_a, env_b, known, sym project ∙ known, client, same) refl
      ])
      pings

-- The pair of two optional texts, or the failure for the first that is missing.
both : (f g : Failure) (m n : Option String) → Outcome Credentials
both f g m n = do
  addr ← need f m
  pw ← need g n
  went_on (record { redis_addr = addr; redis_password = pw })

-- Where credentials come from: off the Google cloud from the environment, and on it from the two secrets of
-- the project.
abbrev pub ComesFrom : Surroundings → Credentials → Type 0
ComesFrom e c =
    ((e.on_gce ≡ false)
      × (c.redis_addr
          ≡ (if str_eq (e.getenv "REDIS_ADDR") "" then "localhost:6379" else e.getenv "REDIS_ADDR"))
      × (c.redis_password ≡ e.getenv "REDIS_PASSWORD"))
    ⊎ ((e.on_gce ≡ true)
        × (e.has_client ≡ true)
        × ((project : String) × (e.project_id ≡ some project)
            × IsSecret e project "REDIS_ADDR" c.redis_addr
            × IsSecret e project "REDIS_PASSWORD" c.redis_password))
